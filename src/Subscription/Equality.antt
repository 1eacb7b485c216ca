-- ===== src/Subscription/Equality.antt =====
-- The derived equality of filters and subscriptions of src/subscription.rs, and `Vec::dedup` by it.
-- Hash sets and hash maps are compared without their order.
use floonet_rs.Base.{
  ℕ, String, Bool, true, false, ◌&&◌, Option, none, some, List, [], ◌∷◌, ◌==◌, nat_eq, string_eq,
  if◌then◌else◌, length, all, contains, lookup,
}
use floonet_rs.Event.{TagOperand, and, or}
use floonet_rs.Subscription.{ReqFilter, Subscription}

abbrev pub option_eq {ℓ} : {A : Type ℓ} → (A → A → Bool) → Option A → Option A → Bool
option_eq same none none = true
option_eq same (some a) (some b) = same a b
option_eq same _ _ = false

abbrev pub list_eq {ℓ} : {A : Type ℓ} → (A → A → Bool) → List A → List A → Bool
list_eq same [] [] = true
list_eq same (x ∷ xs) (y ∷ ys) = same x y && list_eq same xs ys
list_eq same _ _ = false

-- `HashSet`: as many elements, and each of the first in the second.
unfoldable pub set_eq : List String → List String → Bool
set_eq a b = length a == length b && all (λ x. contains b x) a

unfoldable pub operand_eq : TagOperand → TagOperand → Bool
operand_eq (and a) (and b) = set_eq a b
operand_eq (or a) (or b) = set_eq a b
operand_eq _ _ = false

-- `HashMap`: as many entries, and each of the first in the second.
abbrev entry_eq : Option TagOperand → TagOperand → Bool
entry_eq none op = false
entry_eq (some op') op = operand_eq op op'

unfoldable pub map_eq : List (ℕ × TagOperand) → List (ℕ × TagOperand) → Bool
map_eq a b =
    length a == length b && all (λ (entry : ℕ × TagOperand). entry_eq (lookup entry.0 b) entry.1) a

unfoldable pub filter_eq : ReqFilter → ReqFilter → Bool
filter_eq f g =
    option_eq (list_eq (λ (a b : String). a == b)) f.ids g.ids
    && option_eq (list_eq (λ (a b : ℕ). a == b)) f.kinds g.kinds
    && option_eq (λ (a b : ℕ). a == b) f.since g.since
    && option_eq (λ (a b : ℕ). a == b) f.until g.until
    && option_eq (list_eq (λ (a b : String). a == b)) f.authors g.authors
    && option_eq (λ (a b : ℕ). a == b) f.limit g.limit
    && option_eq map_eq f.tags g.tags
    && (if f.force_no_match then g.force_no_match else if g.force_no_match then false else true)

-- `Subscription: PartialEq`
unfoldable pub subscription_eq : Subscription → Subscription → Bool
unfolding filter_eq
subscription_eq s t = s.id == t.id && list_eq filter_eq s.filters t.filters

-- The rest of `dedup` after the last filter that was kept.
dedup_after : ReqFilter → List ReqFilter → List ReqFilter
dedup_after kept [] = []
dedup_after kept (f ∷ fs) =
    let same = dedup_after kept fs in
    let other = f ∷ dedup_after f fs in if filter_eq f kept then same else other

unfoldable pub dedup : List ReqFilter → List ReqFilter
unfolding dedup_after
dedup [] = []
dedup (f ∷ fs) = f ∷ dedup_after f fs
