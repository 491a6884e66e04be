-- ===== src/RustScan/Bodies/Guard.antt =====
-- internal/cmd/herdrsource/rust.go: guardedBlock.
use herdr_client.Prelude.{
  ℕ, zero, suc, ◌+◌, ◌≤◌, ◌≡◌, ap, ◌∙◌, true, false, some, [], ◌∷◌, ◌++◌, length, take, drop,
  is_some, arith,
}
use herdr_client.RustScan.Bytes.{
  Bytes, ascii, has_prefix, index_of, contains_any, has_prefix-le, length-drop,
}
use herdr_client.RustScan.Find.{
  ByteFound, index_byte-ByteFound, LastFound, last_index-LastFound, has_prefix-take,
}
use herdr_client.RustScan.Balanced.{Group, block_at, group_at, drop-drop}
use herdr_client.RustScan.Arms.{body_of, guarded_block}
use herdr_client.RustScan.Bodies.{
  IsBlock, GuardBlock, MayBe, MayBe-map, when_found-MayBe, guard-MayBe, take-drop, Holds,
  group_at-Holds, block_at-MayBe,
}

has_prefix-drop-take :
    (p : Bytes) (n i : ℕ) (s : Bytes)
    → has_prefix p (drop n (take i s)) ≡ true
    → has_prefix p (drop n s) ≡ true
has_prefix-drop-take p zero i s h = has_prefix-take p s i h
has_prefix-drop-take p (suc n) zero s h = has_prefix-take p (drop (suc n) s) 0 h
has_prefix-drop-take p (suc n) (suc i) [] h = h
has_prefix-drop-take p (suc n) (suc i) (c ∷ s) h = has_prefix-drop-take p n i s h

length-take : (i : ℕ) (s : Bytes) → length (take i s) ≤ i
length-take zero s = omega arith
length-take (suc i) [] = omega arith
length-take (suc i) (c ∷ s) = omega (arith, length-take i s)

prefix-before :
    (n i : ℕ) (s : Bytes) → has_prefix (ascii "matches!") (drop n (take i s)) ≡ true → n + 8 ≤ i
prefix-before n i s h = omega (
  arith,
  has_prefix-le (ascii "matches!") (drop n (take i s)) h,
  length-drop n (take i s),
  length-take i s,
)

pub guarded_block-MayBe :
    (src : Bytes) (index : ℕ) → MayBe (GuardBlock src index) (guarded_block src index)
unfolding guarded_block
guarded_block-MayBe src index =
    when_found-MayBe G (LastFound (ascii "matches!") (take index src)) _ _
      (last_index-LastFound (ascii "matches!") (take index src))
      (λ start hs. guard-MayBe G _ _ (λ one.
        when_found-MayBe G (ByteFound b'(' (drop start src)) _ _
          (index_byte-ByteFound b'(' (drop start src))
          (λ opening ho.
            when_found-MayBe G (Holds src (start + opening) b'(' b')')
              (group_at src (start + opening)) _ (group_at-Holds src (start + opening))
              (λ g hg.
                when_found-MayBe G (ByteFound b'{' (drop g.1 src)) _ _
                  (index_byte-ByteFound b'{' (drop g.1 src))
                  (λ brace hb.
                    guard-MayBe G _ _
                      (λ no_end. behind start hs one opening ho g hg brace hb no_end))))))
  where
    G : Bytes → Type 0
    G = GuardBlock src index

    behind :
        (start : ℕ)
        → LastFound (ascii "matches!") (take index src) (some start)
        → is_some (index_of (b'\n' ∷ (b'\n' ∷ [])) (drop start (take index src))) ≡ false
        → (opening : ℕ) → ByteFound b'(' (drop start src) (some opening)
        → (g : Group) → Holds src (start + opening) b'(' b')' (some g)
        → (brace : ℕ) → ByteFound b'{' (drop g.1 src) (some brace)
        → contains_any (ascii ";=") (take brace (drop g.1 src)) ≡ false
        → MayBe (GuardBlock src index) (body_of (block_at src (g.1 + brace)))
    behind start (call, last) one opening (ho, first) g hg brace (hb, first_brace) no_end =
        MayBe-map (IsBlock (drop (g.1 + brace) src)) (GuardBlock src index) whole _
          (block_at-MayBe src (g.1 + brace))
      where
        split_at : (n m : ℕ) → drop n src ≡ take m (drop n src) ++ drop (n + m) src
        split_at n m =
            take-drop m (drop n src) ∙ ap (λ t. take m (drop n src) ++ t) (drop-drop n m src)

        whole : (b : Bytes) → IsBlock (drop (g.1 + brace) src) b → GuardBlock src index b
        whole b h = record {
          start = start;
          before = prefix-before start index src call;
          is_call = has_prefix-drop-take (ascii "matches!") start index src call;
          last_call = last;
          one_paragraph = one;
          head = take opening (drop start src);
          args = g.0;
          gap = take brace (drop g.1 src);
          tail = drop (g.1 + brace) src;
          at_start =
              split_at start opening
              ∙ ap (λ t. take opening (drop start src) ++ t)
                  (hg ∙ ap (λ t. b'(' ∷ (g.0 ++ b')' ∷ t)) (split_at g.1 brace));
          first_group = first;
          first_block = first_brace;
          no_end = no_end;
          is_block = h;
        }
