-- ===== src/Yaml.antt =====
-- _yaml.py: the reader of the YAML subset, which is used where PyYAML is not installed. A text is
-- the list of its code points. Here are the values that a document holds, what a document is refused
-- for, and the dict that a mapping becomes.
pub mod Lexis
pub mod Scalar
pub mod Parser
mod Fuel
pub mod Total
pub mod Render
mod Words
mod Quotes
mod Turns
pub mod RoundTrip
mod Examples
use health_mon.Common.{
  ℕ, zero, suc, Bool, true, false, ◌&&◌, Option, none, some, List, [], ◌∷◌, ◌==◌, if◌then◌else◌,
  is_empty,
}
use health_mon.Probes.{ℤ, pos, negsuc, one}

abbrev pub Text : Type 0
Text = List ℕ

-- The keys of a mapping are nodes.
mutual
  pub data Node : Type 0 where
    null : Node
    flag : Bool → Node
    number : ℤ → Node
    text : Text → Node
    items : Nodes → Node
    mapping : Fields → Node

  pub data Nodes : Type 0 where
    nil : Nodes
    cons : Node → Nodes → Nodes

  pub data Fields : Type 0 where
    end : Fields
    field : Node → Node → Fields → Fields

-- YamlSubsetError, with the number of the line, and the TypeError for a key that has no hash.
pub data YamlError : Type 0 where
  tabs unsupported unexpected_indentation expected_key_value : ℕ → YamlError
  unexpected_indentation_in_list : ℕ → YamlError
  unhashable_key : YamlError

pub data Outcome {ℓ} (A : Type ℓ) : Type ℓ where
  done : A → Outcome A
  raised : YamlError → Outcome A
  out_of_fuel : Outcome A

infixl 5 ◌>>=◌
abbrev pub ◌>>=◌ {ℓ κ} : {A : Type ℓ} {B : Type κ} → Outcome A → (A → Outcome B) → Outcome B
done a >>= f = f a
raised e >>= f = raised e
out_of_fuel >>= f = out_of_fuel

abbrev pub same_text : Text → Text → Bool
same_text [] [] = true
same_text [] (_ ∷ _) = false
same_text (_ ∷ _) [] = false
same_text (c ∷ s) (d ∷ t) = c == d && same_text s t

abbrev pub same_number : ℤ → ℤ → Bool
same_number (pos a) (pos b) = a == b
same_number (negsuc a) (negsuc b) = a == b
same_number _ _ = false

-- A bool is an int.
abbrev pub as_number : Bool → ℤ
as_number true = pos one
as_number false = pos 0

-- `==` of two keys
abbrev pub same_key : Node → Node → Bool
same_key null null = true
same_key (flag a) (flag b) = same_number (as_number a) (as_number b)
same_key (flag a) (number n) = same_number (as_number a) n
same_key (number n) (flag a) = same_number n (as_number a)
same_key (number n) (number m) = same_number n m
same_key (text s) (text t) = same_text s t
same_key _ _ = false

abbrev pub set_field : Node → Node → Fields → Fields
set_field k v end = field k v end
set_field k v (field j w rest) =
    let after = set_field k v rest in if same_key j k then field j v rest else field j w after

-- out[key] = value
abbrev pub put : Node → Node → Fields → Outcome Fields
put (items _) v out = raised unhashable_key
put (mapping _) v out = raised unhashable_key
put k v out = done (set_field k v out)

-- out.append(value)
abbrev pub append_node : Nodes → Node → Nodes
append_node nil v = cons v nil
append_node (cons w rest) v = cons w (append_node rest v)
