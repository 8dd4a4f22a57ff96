-- ===== src/Broker/Amqp.antt =====
-- classify_amqp of checks/rabbitmq.py, and what instrument/pika_.py makes of the reason for which a
-- connection was closed. An exception is the name of its type and its text, both in lower case, and
-- the reply code that it carries, if any.
use health_mon.Common.{
  ℕ, Bool, ◌||◌, String, Option, none, some, is_some, ◌==◌, ◌≢◌, if◌then◌else◌, arith,
}
use text.Mathlib.Text.{find?}
use health_mon.Model.{
  ErrorCategory, resource_missing, auth_failed, broker_shutdown, heartbeat_timeout,
  connection_refused, resource_locked, connection_lost, broker_alarm, not_subscribed,
}

pub record AmqpError : Type 0 where
  pub name : String
  pub message : String
  pub reply_code : Option ℕ

-- `part in whole`
abbrev pub contains : String → String → Bool
contains whole part = is_some (find? whole part)

abbrev pub has_code : Option ℕ → ℕ → Bool
has_code none code = Bool.false
has_code (some c) code = c == code

unfoldable pub classify_amqp : AmqpError → ErrorCategory
classify_amqp e =
    if has_code e.reply_code 404 || contains e.message "no queue" || contains e.message "not_found"
    then resource_missing
    else if has_code e.reply_code 403
        || has_code e.reply_code 530
        || contains e.message "access refused"
        || contains e.message "acces_refused"
    then auth_failed
    else if contains e.name "probableauthenticationerror" || contains e.message "login was refused"
    then auth_failed
    else if contains e.name "connectionclosedbybroker" || contains e.message "shutdown"
    then broker_shutdown
    else if contains e.message "heartbeat"
    then heartbeat_timeout
    else if contains e.name "timeout" || contains e.message "timed out"
    then ErrorCategory.timeout
    else if contains e.message "connection refused" || contains e.message "econnrefused"
    then connection_refused
    else if contains e.message "resource_locked" || contains e.message "exclusive"
    then resource_locked
    else if contains e.name "channelclosed" || contains e.name "connectionclosed"
    then connection_lost
    else ErrorCategory.unknown

-- The reason of a close: none, an exception, or a value whose `str` is the text.
pub data Reason : Type 0 where
  not_given : Reason
  exception : AmqpError → Reason
  other : String → Reason

-- _closed_category
unfoldable pub closed_category : Reason → ErrorCategory
unfolding classify_amqp
closed_category not_given = connection_lost
closed_category (exception e) = classify_amqp e
closed_category (other s) =
    classify_amqp (record { name = "exception"; message = s; reply_code = none })

-- What the check itself reports never comes from an exception.
abbrev pub IsOwn : ErrorCategory → Type 0
IsOwn c = (c ≢ broker_alarm) × (c ≢ not_subscribed)

pub classify_amqp-IsOwn : (e : AmqpError) → IsOwn (classify_amqp e)
unfolding classify_amqp
classify_amqp-IsOwn e = (λ h. ground arith, λ h. ground arith)
