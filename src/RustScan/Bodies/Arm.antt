-- ===== src/RustScan/Bodies/Arm.antt =====
-- internal/cmd/herdrsource/rust.go: armBody.
use herdr_client.Prelude.{
  ℕ, suc, ◌+◌, ◌-◌, ◌≡◌, sym, ap, ◌∙◌, true, false, none, some, ◌∷◌, ◌++◌, length, take, drop, leb,
  if_case, arith,
}
use herdr_client.RustScan.Bytes.{Bytes, ascii, contains_any, count_blanks}
use herdr_client.RustScan.Find.{TextFound, index_of-TextFound, starts_blank, count_blanks-BlanksTo}
use herdr_client.RustScan.Skip.{byte_at}
use herdr_client.RustScan.Walk.{
  byte_at-drop, Walked, stops, ends, out_of_fuel, walk, walk-StopsAt, StopsAt,
}
use herdr_client.RustScan.Balanced.{
  Group, group_at, until_arm_comma, count_arm, is_byte, text_to, drop-drop, take-byte_at-drop,
}
use herdr_client.RustScan.Arms.{arm_expression, arm_body}
use herdr_client.RustScan.Bodies.{
  IsBlock, ends_arm, ArmCode, block, expression, ArmBody, MayBe, MayBe-map, when_found-MayBe,
  guard-MayBe, take-drop, Holds, group_at-Holds, block_at-MayBe,
}

count_arm-stops : (depth c : ℕ) → count_arm depth c ≡ none → ends_arm c ≡ true
unfolding count_arm
count_arm-stops depth c h = ground (arith, h)

byte_at-first : (at : ℕ) (src : Bytes) → byte_at 0 (drop at src) ≡ byte_at at src
byte_at-first at src = byte_at-drop at 0 src ∙ ap (λ n. byte_at n src) (omega arith)

until_arm_comma-MayBe :
    (src : Bytes) (at : ℕ)
    → is_byte b'{' (byte_at at src) ≡ false
    → MayBe (ArmCode (drop at src)) (until_arm_comma src at)
unfolding until_arm_comma
until_arm_comma-MayBe src at other =
    go (walk count_arm (length src) 0 at (drop at src))
      (walk-StopsAt count_arm (length src) 0 at (drop at src))
  where
    go :
        (w : Walked)
        → StopsAt count_arm at (drop at src) w
        → MayBe (ArmCode (drop at src)) (text_to src at w)
    go ends h = tt
    go out_of_fuel h = tt
    go (stops j) (le, (c, (here, (depth, stopped)))) =
        expression c (drop (suc (j - at)) (drop at src))
          (ap (is_byte b'{') (byte_at-first at src) ∙ other) (count_arm-stops depth c stopped)
          (take-byte_at-drop (j - at) (drop at src) c here)

arm_expression-MayBe :
    (src : Bytes) (at : ℕ) → MayBe (ArmCode (drop at src)) (arm_expression src at)
unfolding arm_expression
arm_expression-MayBe src at = guard-MayBe (ArmCode (drop at src)) (leb (length src) at) _ (λ inside.
    if_case (MayBe (ArmCode (drop at src))) (is_byte b'{' (byte_at at src))
      (λ t.
        MayBe-map (IsBlock (drop at src)) (ArmCode (drop at src)) (λ b h. block h) _
          (block_at-MayBe src at))
      (λ f. until_arm_comma-MayBe src at f))

pub arm_body-MayBe : (src : Bytes) (at : ℕ) → MayBe (ArmBody src at) (arm_body src at)
unfolding arm_body
arm_body-MayBe src at =
    when_found-MayBe (ArmBody src at) (Holds src at b'(' b')') (group_at src at) _
      (group_at-Holds src at)
      (λ g hg.
        when_found-MayBe (ArmBody src at) (TextFound (ascii "=>") (drop g.1 src)) _ _
          (index_of-TextFound (ascii "=>") (drop g.1 src))
          (λ arrow ha. guard-MayBe (ArmBody src at) _ _ (λ no_end. behind g hg arrow ha no_end)))
  where
    behind :
        (g : Group)
        → Holds src at b'(' b')' (some g)
        → (arrow : ℕ) → TextFound (ascii "=>") (drop g.1 src) (some arrow)
        → contains_any (ascii ";{}") (take arrow (drop g.1 src)) ≡ false
        → MayBe
            (ArmBody src at)
            (arm_expression src (g.1 + arrow + 2 + count_blanks (drop (g.1 + arrow + 2) src)))
    behind g hg arrow (ha, first) no_end =
        MayBe-map (ArmCode (drop (start + k) src)) (ArmBody src at) whole _
          (arm_expression-MayBe src (start + k))
      where
        start : ℕ
        start = g.1 + arrow + 2

        k : ℕ
        k = count_blanks (drop start src)

        rest : drop 2 (drop arrow (drop g.1 src)) ≡ take k (drop start src) ++ drop (start + k) src
        rest =
            ap (drop 2) (drop-drop g.1 arrow src)
            ∙ drop-drop (g.1 + arrow) 2 src
            ∙ take-drop k (drop start src)
            ∙ ap (λ t. take k (drop start src) ++ t) (drop-drop start k src)

        whole : (b : Bytes) → ArmCode (drop (start + k) src) b → ArmBody src at b
        whole b c = record {
          pattern_text = g.0;
          gap = take arrow (drop g.1 src);
          blanks = take k (drop start src);
          tail = drop (start + k) src;
          at_start =
              hg
              ∙ ap (λ t. b'(' ∷ (g.0 ++ b')' ∷ t))
                  (ha ∙ ap (λ t. take arrow (drop g.1 src) ++ (ascii "=>" ++ t)) rest);
          first_arrow = first;
          no_end = no_end;
          all_blank = (count_blanks-BlanksTo (drop start src)).0;
          no_blank =
              ap starts_blank (sym (drop-drop start k src))
              ∙ (count_blanks-BlanksTo (drop start src)).1;
          is_code = c;
        }
