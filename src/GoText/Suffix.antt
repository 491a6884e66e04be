-- ===== src/GoText/Suffix.antt =====
-- strings.CutSuffix for a percent sign: the text is what is left and the sign.
use Prim.Native.Char.{Char, code}
use Prim.Native.String.{◌++◌ as join_text}
use Prim.Native.String.append
use text.Mathlib.TextEquality.{Char-path}
use herdr_client.Prelude.{
  ◌≡◌, refl, sym, ap, ◌∙◌, subst, String, Option, none, some, eqb, if_case, if◌then◌else◌, arith,
}
use herdr_client.GoText.{cut_suffix, cut_last}

append_cons :
    (c : Char) (s : String) → join_text (String.◌∷◌ c s) "%" ≡ String.◌∷◌ c (join_text s "%")
append_cons c s = λ i. append.cons c s "%" i

abbrev Cuts : String → Option String → Type 0
Cuts s none = Unit {0}
Cuts s (some d) = s ≡ join_text d "%"

one-Cuts : (c : Char) → Cuts (String.◌∷◌ c "") (if eqb (code c) b'%' then some "" else none)
one-Cuts c =
    if_case {A = Option String} (Cuts (String.◌∷◌ c "")) (eqb (code c) b'%')
      (λ t. ap (λ d. String.◌∷◌ d "") (Char-path c "%" (ground arith))) (λ f. tt)

cut_last-Cuts :
    (c : Char) (s : String) (o : Option String)
    → Cuts s o
    → Cuts (String.◌∷◌ c s) (cut_last b'%' c s o)
cut_last-Cuts c String.[] o h = one-Cuts c
cut_last-Cuts c (String.◌∷◌ d s) none h = tt
cut_last-Cuts c (String.◌∷◌ d s) (some rest) h =
    ap (λ t. String.◌∷◌ c t) h ∙ sym (append_cons c rest)

cut_suffix-Cuts : (s : String) → Cuts s (cut_suffix b'%' s)
unfolding cut_suffix
cut_suffix-Cuts String.[] = tt
cut_suffix-Cuts (String.◌∷◌ c s) = cut_last-Cuts c s (cut_suffix b'%' s) (cut_suffix-Cuts s)

pub cut_suffix-join : (s d : String) → cut_suffix b'%' s ≡ some d → s ≡ join_text d "%"
cut_suffix-join s d h = subst (Cuts s) h (cut_suffix-Cuts s)

pub join-cut_suffix : (d : String) → cut_suffix b'%' (join_text d "%") ≡ some d
unfolding cut_suffix
join-cut_suffix String.[] = refl
join-cut_suffix (String.◌∷◌ c String.[]) = ap (cut_suffix b'%') (append_cons c "")
join-cut_suffix (String.◌∷◌ c (String.◌∷◌ e d)) =
    ap (cut_suffix b'%') (append_cons c (String.◌∷◌ e d))
    ∙ ap (λ t. cut_last b'%' c t (cut_suffix b'%' t)) (append_cons e d)
    ∙ ap (cut_last b'%' c (String.◌∷◌ e (join_text d "%")))
        (ap (cut_suffix b'%') (sym (append_cons e d)) ∙ join-cut_suffix (String.◌∷◌ e d))
