-- ===== src/RustScan/Bodies.antt =====
-- internal/cmd/herdrsource/rust.go: where in the source the body of an arm, of a guard or of an `if let`
-- stands, and what stands before it.
pub mod Arm
pub mod Guard
pub mod Bound
pub mod Found
use herdr_client.Prelude.{
  ℕ, zero, suc, ◌+◌, ◌-◌, ◌≤◌, ◌≡◌, ◌≢◌, refl, sym, ap, ◌∙◌, subst, Bool, true, false, ◌||◌, Option,
  none, some, [], ◌∷◌, ◌++◌, length, take, drop, all, eqb, leb, is_some, if_case, if◌then◌else◌,
  arith,
}
use herdr_client.RustScan.Bytes.{
  Bytes, ascii, has_prefix, index_byte, index_of, last_index, contains_any, count_blanks,
  is_blank_byte, has_prefix-le, length-drop,
}
use herdr_client.RustScan.Find.{
  drop-after, ByteFound, index_byte-ByteFound, TextFound, index_of-TextFound, LastFound,
  last_index-LastFound, has_prefix-take, starts_blank, count_blanks-BlanksTo,
}
use herdr_client.RustScan.Skip.{byte_at}
use herdr_client.RustScan.Walk.{Walked, stops, ends, out_of_fuel, walk, walk-StopsAt, StopsAt}
use herdr_client.RustScan.Balanced.{
  Group, balanced, block_at, group_at, until_arm_comma, count_arm, is_byte, Encloses,
  balanced-Encloses, text_to, drop-drop, take-byte_at-drop,
}
use herdr_client.RustScan.Arms.{
  body_of, when_found, arm_expression, arm_body, guarded_block, bound_block,
}

-- a text that starts with a block
abbrev pub IsBlock : Bytes → Bytes → Type 0
IsBlock tail body = (after : Bytes) × (tail ≡ b'{' ∷ (body ++ b'}' ∷ after))

abbrev pub ends_arm : ℕ → Bool
ends_arm c = eqb c b',' || eqb c b')' || eqb c b']' || eqb c b'}'

-- the code behind the arrow of an arm: a block, or an expression up to a comma or a closing delimiter
pub data ArmCode (tail body : Bytes) : Type 0 where
  block : IsBlock tail body → ArmCode tail body
  expression :
      (c : ℕ) (after : Bytes)
      → is_byte b'{' (byte_at 0 tail) ≡ false
      → ends_arm c ≡ true
      → tail ≡ body ++ c ∷ after
      → ArmCode tail body

-- `( pattern ) gap => blanks body`, from an index on
pub record ArmBody (src : Bytes) (at : ℕ) (body : Bytes) : Type 0 where
  pub pattern_text : Bytes
  pub gap : Bytes
  pub blanks : Bytes
  pub tail : Bytes
  pub at_start :
      drop at src ≡ b'(' ∷ (pattern_text ++ b')' ∷ (gap ++ (ascii "=>" ++ (blanks ++ tail))))
  pub first_arrow : index_of (ascii "=>") gap ≡ none
  pub no_end : contains_any (ascii ";{}") gap ≡ false
  pub all_blank : all is_blank_byte blanks ≡ true
  pub no_blank : starts_blank tail ≡ false
  pub is_code : ArmCode tail body

-- `matches! … ( args ) gap { body }`, where the call is the last one that stands before an index
pub record GuardBlock (src : Bytes) (index : ℕ) (body : Bytes) : Type 0 where
  pub start : ℕ
  pub before : start + 8 ≤ index
  pub is_call : has_prefix (ascii "matches!") (drop start src) ≡ true
  pub last_call : index_of (ascii "matches!") (drop (suc start) (take index src)) ≡ none
  pub one_paragraph :
      is_some (index_of (b'\n' ∷ (b'\n' ∷ [])) (drop start (take index src))) ≡ false
  pub head : Bytes
  pub args : Bytes
  pub gap : Bytes
  pub tail : Bytes
  pub at_start : drop start src ≡ head ++ b'(' ∷ (args ++ b')' ∷ (gap ++ tail))
  pub first_group : contains_any (b'(' ∷ []) head ≡ false
  pub first_block : contains_any (b'{' ∷ []) gap ≡ false
  pub no_end : contains_any (ascii ";=") gap ≡ false
  pub is_block : IsBlock tail body

-- `( pattern ) gap = value { body }`, from an index on
pub record BoundBlock (src : Bytes) (at : ℕ) (body : Bytes) : Type 0 where
  pub pattern_text : Bytes
  pub gap : Bytes
  pub value : Bytes
  pub tail : Bytes
  pub at_start : drop at src ≡ b'(' ∷ (pattern_text ++ b')' ∷ (gap ++ b'=' ∷ (value ++ tail)))
  pub first_equal : contains_any (b'=' ∷ []) gap ≡ false
  pub no_end : contains_any (ascii ";{}") gap ≡ false
  pub no_arrow : has_prefix (ascii ">") value ≡ false
  pub first_block : contains_any (b'{' ∷ []) value ≡ false
  pub no_end_behind : contains_any (ascii ";}") value ≡ false
  pub is_block : IsBlock tail body

abbrev pub MayBe : (Bytes → Type 0) → Option Bytes → Type 0
MayBe P none = Unit {0}
MayBe P (some body) = P body

pub MayBe-map :
    (P Q : Bytes → Type 0) → ((b : Bytes) → P b → Q b) → (o : Option Bytes) → MayBe P o → MayBe Q o
MayBe-map P Q f none h = tt
MayBe-map P Q f (some b) h = f b h

pub when_found-MayBe :
    {A : Type 0} (P : Bytes → Type 0) (R : Option A → Type 0) (o : Option A)
    (next : A → Option Bytes)
    → R o
    → ((a : A) → R (some a) → MayBe P (next a))
    → MayBe P (when_found o next)
unfolding when_found
when_found-MayBe P R none next r h = tt
when_found-MayBe P R (some a) next r h = h a r

-- `if … { return "", false }`
pub guard-MayBe :
    (P : Bytes → Type 0) (b : Bool) (o : Option Bytes)
    → (b ≡ false → MayBe P o)
    → MayBe P (if b then none else o)
guard-MayBe P true o h = tt
guard-MayBe P false o h = h refl

pub take-drop : (n : ℕ) (s : Bytes) → s ≡ take n s ++ drop n s
take-drop zero s = refl
take-drop (suc n) [] = refl
take-drop (suc n) (c ∷ s) = ap (◌∷◌ c) (take-drop n s)

-- a group stands from its index on
abbrev pub Holds : Bytes → ℕ → ℕ → ℕ → Option Group → Type 0
Holds src at oc cc none = Unit {0}
Holds src at oc cc (some g) = drop at src ≡ oc ∷ (g.0 ++ cc ∷ drop g.1 src)

Encloses-Holds :
    (src : Bytes) (at oc cc : ℕ) (o : Option Group) → Encloses src at oc cc o → Holds src at oc cc o
Encloses-Holds src at oc cc none h = tt
Encloses-Holds src at oc cc (some g) h = drop-after at src (oc ∷ (g.0 ++ cc ∷ drop g.1 src)) h

pub group_at-Holds : (src : Bytes) (at : ℕ) → Holds src at b'(' b')' (group_at src at)
unfolding group_at
group_at-Holds src at =
    Encloses-Holds src at b'(' b')' (balanced src at b'(' b')')
      (balanced-Encloses src at b'(' b')' (λ e. omega (arith, e)))

pub block_at-MayBe :
    (src : Bytes) (at : ℕ) → MayBe (IsBlock (drop at src)) (body_of (block_at src at))
unfolding block_at
block_at-MayBe src at = go (balanced src at b'{' b'}') (
    Encloses-Holds src at b'{' b'}' (balanced src at b'{' b'}')
      (balanced-Encloses src at b'{' b'}' (λ e. omega (arith, e))))
  where
    go : (o : Option Group) → Holds src at b'{' b'}' o → MayBe (IsBlock (drop at src)) (body_of o)
    go none h = tt
    go (some g) h = (drop g.1 src, h)
