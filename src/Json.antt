-- ===== src/Json.antt =====
-- JSON values as Python reads and writes them: what `json.loads` returns, and what the payloads of
-- events, requests and stored columns hold. A number that is no natural number keeps its text.
use jenkins_qemu_provisioner.Prelude.{
  ℕ, String, ◌≡◌, refl, ap, Bool, Option, none, some, List, [], ◌∷◌, Dict,
}

-- A list or an object inside a value is a type of its own.
mutual
  pub data Json : Type 0 where
    null : Json
    bool : Bool → Json
    num : ℕ → Json
    real : String → Json
    str : String → Json
    arr : Items → Json
    obj : Fields → Json

  pub data Items : Type 0 where
    nil : Items
    cons : Json → Items → Items

  pub data Fields : Type 0 where
    end : Fields
    field : String → Json → Fields → Fields

abbrev pub items : List Json → Items
items [] = nil
items (x ∷ xs) = cons x (items xs)

abbrev pub to_list : Items → List Json
to_list nil = []
to_list (cons x xs) = x ∷ to_list xs

abbrev pub fields : Dict Json → Fields
fields [] = end
fields ((k, v) ∷ d) = field k v (fields d)

abbrev pub to_dict : Fields → Dict Json
to_dict end = []
to_dict (field k v d) = (k, v) ∷ to_dict d

-- A value of type `str | None`.
abbrev pub optional_str : Option String → Json
optional_str none = null
optional_str (some s) = str s

pub to_list-items : (xs : List Json) → to_list (items xs) ≡ xs
to_list-items [] = refl
to_list-items (x ∷ xs) = ap (λ ys. x ∷ ys) (to_list-items xs)
