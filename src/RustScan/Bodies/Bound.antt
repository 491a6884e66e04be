-- ===== src/RustScan/Bodies/Bound.antt =====
-- internal/cmd/herdrsource/rust.go: boundBlock.
use herdr_client.Prelude.{
  ℕ, zero, suc, ◌+◌, ◌-◌, ◌≡◌, sym, ap, ◌∙◌, subst, false, some, [], ◌∷◌, ◌++◌, take, drop, arith,
}
use herdr_client.RustScan.Bytes.{Bytes, ascii, has_prefix, contains_any}
use herdr_client.RustScan.Find.{drop-after, ByteFound, index_byte-ByteFound, has_prefix-take}
use herdr_client.RustScan.Balanced.{Group, block_at, group_at, drop-drop}
use herdr_client.RustScan.Arms.{body_of, bound_block}
use herdr_client.RustScan.Bodies.{
  IsBlock, BoundBlock, MayBe, MayBe-map, when_found-MayBe, guard-MayBe, take-drop, Holds,
  group_at-Holds, block_at-MayBe,
}

-- what stands between an equals sign and the first brace behind it
ValueTo : Bytes → ℕ → Type 0
ValueTo v brace =
    (b'=' ∷ v ≡ b'=' ∷ (take (brace - 1) v ++ drop brace (b'=' ∷ v)))
    × (contains_any (b'{' ∷ []) (take (brace - 1) v) ≡ false)

ByteFound-ValueTo :
    (v : Bytes) (brace : ℕ) → ByteFound b'{' (b'=' ∷ v) (some brace) → ValueTo v brace
unfolding contains_any ValueTo
ByteFound-ValueTo v zero (h, k) = absurd (ground (arith, h))
ByteFound-ValueTo v (suc m) (h, k) =
    subst
      (λ n.
        (b'=' ∷ v ≡ b'=' ∷ (take n v ++ drop (suc m) (b'=' ∷ v)))
        × (contains_any (b'{' ∷ []) (take n v) ≡ false))
      same (ap (◌∷◌ b'=') (take-drop m v), k)
  where
    same : m ≡ suc m - 1
    same = omega arith

no_arrow-value :
    (v : Bytes) (n : ℕ)
    → has_prefix (ascii "=>") (b'=' ∷ v) ≡ false
    → has_prefix (ascii ">") (take n v) ≡ false
unfolding has_prefix
no_arrow-value v n h = ground (arith, arrow, has_prefix-take (ascii ">") v n)
  where
    arrow : has_prefix (ascii ">") v ≡ false
    arrow = h

pub bound_block-MayBe : (src : Bytes) (at : ℕ) → MayBe (BoundBlock src at) (bound_block src at)
unfolding bound_block has_prefix ValueTo
bound_block-MayBe src at =
    when_found-MayBe (BoundBlock src at) (Holds src at b'(' b')') (group_at src at) _
      (group_at-Holds src at)
      (λ g hg.
        when_found-MayBe (BoundBlock src at) (ByteFound b'=' (drop g.1 src)) _ _
          (index_byte-ByteFound b'=' (drop g.1 src))
          (λ eq he. guard-MayBe (BoundBlock src at) _ _ (λ no_arrow.
            guard-MayBe (BoundBlock src at) _ _ (λ no_end.
              when_found-MayBe (BoundBlock src at) (ByteFound b'{' (drop eq (drop g.1 src))) _ _
                (index_byte-ByteFound b'{' (drop eq (drop g.1 src)))
                (λ brace hb.
                  guard-MayBe (BoundBlock src at) _ _
                    (λ behind_end. behind g hg eq he no_arrow no_end brace hb behind_end))))))
  where
    behind :
        (g : Group)
        → Holds src at b'(' b')' (some g)
        → (eq : ℕ) → ByteFound b'=' (drop g.1 src) (some eq)
        → has_prefix (ascii "=>") (drop eq (drop g.1 src)) ≡ false
        → contains_any (ascii ";{}") (take eq (drop g.1 src)) ≡ false
        → (brace : ℕ) → ByteFound b'{' (drop eq (drop g.1 src)) (some brace)
        → contains_any (ascii ";}") (take (brace - 1) (drop (eq + 1) (drop g.1 src))) ≡ false
        → MayBe (BoundBlock src at) (body_of (block_at src (g.1 + eq + brace)))
    behind g hg eq (he, first) no_arrow no_end brace hb behind_end =
        MayBe-map (IsBlock (drop (g.1 + eq + brace) src)) (BoundBlock src at) whole _
          (block_at-MayBe src (g.1 + eq + brace))
      where
        rest : Bytes
        rest = drop g.1 src

        v : Bytes
        v = drop (eq + 1) rest

        next : suc eq ≡ eq + 1
        next = omega arith

        at_equal : drop eq rest ≡ b'=' ∷ v
        at_equal =
            drop-after eq rest (b'=' ∷ drop (suc eq) rest) he ∙ ap (λ n. b'=' ∷ drop n rest) next

        to_value : ValueTo v brace
        to_value =
            ByteFound-ValueTo v brace (subst (λ d. ByteFound b'{' d (some brace)) at_equal hb)

        at_brace : drop brace (b'=' ∷ v) ≡ drop (g.1 + eq + brace) src
        at_brace =
            ap (drop brace) (sym at_equal ∙ drop-drop g.1 eq src) ∙ drop-drop (g.1 + eq) brace src

        whole : (b : Bytes) → IsBlock (drop (g.1 + eq + brace) src) b → BoundBlock src at b
        whole b h = record {
          pattern_text = g.0;
          gap = take eq rest;
          value = take (brace - 1) v;
          tail = drop (g.1 + eq + brace) src;
          at_start =
              hg
              ∙ ap (λ t. b'(' ∷ (g.0 ++ b')' ∷ t))
                  (take-drop eq rest
                    ∙ ap (λ t. take eq rest ++ t)
                        (at_equal
                          ∙ to_value.0
                          ∙ ap (λ t. b'=' ∷ (take (brace - 1) v ++ t)) at_brace));
          first_equal = first;
          no_end = no_end;
          no_arrow =
              no_arrow-value v (brace - 1) (ap (has_prefix (ascii "=>")) (sym at_equal) ∙ no_arrow);
          first_block = to_value.1;
          no_end_behind = behind_end;
          is_block = h;
        }
