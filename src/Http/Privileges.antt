-- ===== src/Http/Privileges.antt =====
-- Who may do what: isAuthorized of src/redfishresource/redfish_handler.go, VerifyPrivileges and
-- VerifyPrivilegeBits of redfishresourceproperty.go, and the privilege bits and header handler of
-- src/dell-resources/dellauth/dellauth.go.
use mathlib.Core.List.{Mem, mem-cons_self, mem-cons, not-mem-nil}
use mathlib.Core.Logic.Or
use mathlib.Core.Logic.{∥∥₁_elim}
use sailfish.Base.{
  Bool, Bool-cases, List, Option, String, [], any, arith, eq_iff, false, get_elem?, if◌then◌else◌,
  inl, inr, refl, some, str_eq, suc, true, zero, ℕ, ◌%◌, ◌&&◌, ◌/◌, ◌<◌, ◌==◌, ◌||◌, ◌↔◌, ◌∙◌, ◌∷◌,
  ◌≡◌,
}

-- The loop over the required privileges.
unfoldable pub holds : String → List String → Bool
holds p [] = false
holds p (q ∷ qs) = str_eq p q || holds p qs

-- The loop over the user's privileges, left at the first match.
unfoldable pub is_authorized : List String → List String → Bool
unfolding holds
is_authorized [] required = false
is_authorized (p ∷ ps) required =
    let rest = is_authorized ps required in if holds p required then true else rest

-- val&bits == bits for a bit of weight `bit`.
unfoldable pub m_eval : ℕ → ℕ → Bool
m_eval val bit = (val / bit) % 2 == 1

abbrev pub bit_names : List (ℕ × String)
bit_names =
    (1, "Login")
    ∷ (2, "ConfigureManager")
    ∷ (4, "ConfigureUsers")
    ∷ (8, "ClearLogs")
    ∷ (16, "ConfigureComponents")
    ∷ (32, "AccessVirtualConsole")
    ∷ (64, "AccessVirtualMedia")
    ∷ (128, "TestAlerts")
    ∷ (256, "ExecuteDebugCommands")
    ∷ []

-- The chain of tests, each of which appends the name of its bit.
unfoldable pub names_of : List (ℕ × String) → ℕ → List String
unfolding m_eval
names_of [] required = []
names_of ((bit, name) ∷ rest) required =
    let names = names_of rest required in if m_eval required bit then name ∷ names else names

unfoldable pub privilege_bits_to_strings : ℕ → List String
unfolding names_of
privilege_bits_to_strings required =
    if required == 0 then "Unauthenticated" ∷ [] else names_of bit_names required

holds-mem : (p : String) (qs : List String) → holds p qs ≡ true → Mem p qs
unfolding holds
holds-mem p [] h = cc
holds-mem p (q ∷ qs) h = elim (Bool-cases (str_eq p q)) [
  | inl e ↦ rw ((eq_iff p q).0 e) mem-cons_self
  | inr e ↦ mem-cons.1 (Or.inr (holds-mem p qs (ground arith)))
]

is_true_prop : (b : Bool) → IsProp (b ≡ true)
is_true_prop b = hlevel

mem-holds : (p : String) (qs : List String) → Mem p qs → holds p qs ≡ true
unfolding holds
mem-holds p [] h = absurd (not-mem-nil h)
mem-holds p (q ∷ qs) h =
    Or.elim (is_true_prop (holds p (q ∷ qs))) (mem-cons.0 h) (λ e. ground (arith, eq_iff p q))
      (λ m. ground (arith, mem-holds p qs m))

-- An authorized user has one of the required privileges.
is_authorized-mem :
    (ps required : List String)
    → is_authorized ps required ≡ true
    → (p : String) × Mem p ps × Mem p required
unfolding is_authorized
is_authorized-mem [] required h = cc
is_authorized-mem (p ∷ ps) required h = elim (Bool-cases (holds p required)) [
  | inl e ↦ (p, mem-cons_self, holds-mem p required e)
  | inr e ↦
      let (q, m, n) = is_authorized-mem ps required (ground arith) in (q, mem-cons.1 (Or.inr m), n)
]

mem-is_authorized :
    (p : String) (ps required : List String)
    → holds p required ≡ true
    → Mem p ps
    → is_authorized ps required ≡ true
unfolding is_authorized
mem-is_authorized p [] required h m = absurd (not-mem-nil m)
mem-is_authorized p (q ∷ ps) required h m =
    Or.elim (is_true_prop (is_authorized (q ∷ ps) required)) (mem-cons.0 m) (λ e. rw (rw e at h))
      (λ n. ground (arith, mem-is_authorized p ps required h n))

-- A user is authorized exactly when one of the user's privileges is among the required ones.
pub is_authorized_iff :
    (ps required : List String)
    → (is_authorized ps required ≡ true) ↔ ∥ ((p : String) × Mem p ps × Mem p required) ∥₁
is_authorized_iff ps required = (
  λ h. ∣ is_authorized-mem ps required h ∣₁,
  λ t.
      ∥∥₁_elim t (is_true_prop (is_authorized ps required))
        (λ w. mem-is_authorized w.0 ps required (mem-holds w.0 required w.2) w.1),
)

holds-names_of :
    (name : String) (table : List (ℕ × String)) (bits : ℕ)
    → holds name (names_of table bits) ≡ any (λ row. str_eq name row.1 && m_eval bits row.0) table
unfolding holds names_of
holds-names_of name [] bits = refl
holds-names_of name ((bit, m) ∷ table) bits = ground (arith, holds-names_of name table bits)

zero_test : (n : ℕ) → 0 < n → (n == 0) ≡ false
zero_test n h = ground arith

row-injective :
    {a b : ℕ} {s t : String}
    → ◌≡◌ {A = Option (ℕ × String)} (some (a, s)) (some (b, t))
    → (a ≡ b) × (s ≡ t)
row-injective e = ground arith

or_false : (b : Bool) → (b || false) ≡ b
or_false b = ground arith

-- No two bits of the table share a name.
table_lem :
    (i bit : ℕ) (name : String) (bits : ℕ)
    → get_elem? bit_names i ≡ some (bit, name)
    → any (λ row. str_eq name row.1 && m_eval bits row.0) bit_names ≡ m_eval bits bit
table_lem zero bit name bits e =
    let (p, q) = row-injective e in rw (← p, ← q) (or_false (m_eval bits 1))
table_lem (suc zero) bit name bits e =
    let (p, q) = row-injective e in rw (← p, ← q) (or_false (m_eval bits 2))
table_lem (suc (suc zero)) bit name bits e =
    let (p, q) = row-injective e in rw (← p, ← q) (or_false (m_eval bits 4))
table_lem (suc (suc (suc zero))) bit name bits e =
    let (p, q) = row-injective e in rw (← p, ← q) (or_false (m_eval bits 8))
table_lem (suc (suc (suc (suc zero)))) bit name bits e =
    let (p, q) = row-injective e in rw (← p, ← q) (or_false (m_eval bits 16))
table_lem (suc (suc (suc (suc (suc zero))))) bit name bits e =
    let (p, q) = row-injective e in rw (← p, ← q) (or_false (m_eval bits 32))
table_lem (suc (suc (suc (suc (suc (suc zero)))))) bit name bits e =
    let (p, q) = row-injective e in rw (← p, ← q) (or_false (m_eval bits 64))
table_lem (suc (suc (suc (suc (suc (suc (suc zero))))))) bit name bits e =
    let (p, q) = row-injective e in rw (← p, ← q) (or_false (m_eval bits 128))
table_lem (suc (suc (suc (suc (suc (suc (suc (suc zero)))))))) bit name bits e =
    let (p, q) = row-injective e in rw (← p, ← q) (or_false (m_eval bits 256))
table_lem (suc (suc (suc (suc (suc (suc (suc (suc (suc i))))))))) bit name bits e = cc

-- For privilege bits that are not all zero, the name of a bit of the table is among the names
-- exactly when that bit is set: `i` is the position of the bit in the chain of tests.
pub holds-privilege_bits :
    (i bit : ℕ) (name : String) (bits : ℕ)
    → 0 < bits
    → get_elem? bit_names i ≡ some (bit, name)
    → holds name (privilege_bits_to_strings bits) ≡ m_eval bits bit
unfolding privilege_bits_to_strings
holds-privilege_bits i bit name bits h e =
    rw (zero_test bits h) (holds-names_of name bit_names bits ∙ table_lem i bit name bits e)
