-- ===== src/Generator/Outcomes.antt =====
-- internal/gen: what holds of the results of the steps that may fail.
use herdr_client.Prelude.{
  ◌≡◌, refl, subst, String, Bool, true, false, Option, none, some, if◌then◌else◌, arith,
}
use herdr_client.Generator.Schema.{Node, Outcome, done, failed, then_do, SchemaError}
use herdr_client.Generator.Builder.{needs}

-- what a step returns satisfies a predicate, unless the step fails
abbrev pub Ensures : {A : Type 0} → (A → Type 0) → Outcome A → Type 0
Ensures P (done a) = P a
Ensures P (failed e) = Unit {0}

pub then_do-Ensures :
    {A B : Type 0} (P : B → Type 0) (o : Outcome A) (f : A → Outcome B)
    → ((a : A) → o ≡ done a → Ensures P (f a))
    → Ensures P (then_do o f)
then_do-Ensures P (done a) f h = h a refl
then_do-Ensures P (failed e) f h = tt

pub needs-Ensures :
    {A : Type 0} (P : A → Type 0) (name : String) (o : Option Node) (f : Node → Outcome A)
    → ((n : Node) → Ensures P (f n))
    → Ensures P (needs name o f)
needs-Ensures P name none f h = tt
needs-Ensures P name (some n) f h = h n

-- `if … { return err }`
pub guard-Ensures :
    {A : Type 0} (P : A → Type 0) (b : Bool) (e : SchemaError) (o : Outcome A)
    → Ensures P o
    → Ensures P (if b then failed e else o)
guard-Ensures P true e o h = tt
guard-Ensures P false e o h = h

-- the same, where the step before ensures something
pub chain-Ensures :
    {A B : Type 0} (Q : A → Type 0) (P : B → Type 0) (o : Outcome A) (f : A → Outcome B)
    → Ensures Q o
    → ((a : A) → Q a → Ensures P (f a))
    → Ensures P (then_do o f)
chain-Ensures Q P (done a) f q h = h a q
chain-Ensures Q P (failed e) f q h = tt

done_inj : {A : Type 0} (x y : A) → done x ≡ done y → x ≡ y
done_inj x y e = ground (arith, e)

pub Ensures-done :
    {A : Type 0} (P : A → Type 0) (o : Outcome A) (a : A) → Ensures P o → o ≡ done a → P a
Ensures-done P (done b) a h e = subst P (done_inj b a e) h
Ensures-done P (failed r) a h e = absurd (ground (arith, e))
