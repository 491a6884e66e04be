-- ===== src/Tests/Scans.antt =====
-- The theorems on internal/cmd/herdrsource/rust.go at a few lines of Rust.
use herdr_client.Prelude.{◌≡◌, refl, some, arith}
use herdr_client.RustScan.Bytes.{Bytes, ascii}
use herdr_client.RustScan.Skip.{skip_non_code}
use herdr_client.RustScan.Walk.{walk}
use herdr_client.RustScan.Balanced.{balanced, count_delimiter, Encloses, balanced-Encloses}
use herdr_client.RustScan.Arms.{arm_body, guarded_block, bound_block}
use herdr_client.RustScan.Bodies.{ArmBody, GuardBlock, BoundBlock, MayBe}
use herdr_client.RustScan.Bodies.Found.{bodies-MayBe}
use herdr_client.RustScan.Views.{
  Views, production, tests, split, Views-Complement, SameLines, split-SameLines,
}

-- a block with a brace in a string and one in a nested comment
abbrev block : Bytes
block = ascii "f{\"}\"/*/*}*/*/a}b"

block-balanced : balanced block 1 b'{' b'}' ≡ some (ascii "\"}\"/*/*}*/*/a", 16)
unfolding balanced count_delimiter walk skip_non_code
block-balanced = refl

balanced-Encloses_example : Encloses block 1 b'{' b'}' (balanced block 1 b'{' b'}')
balanced-Encloses_example = balanced-Encloses block 1 b'{' b'}' (λ e. omega (arith, e))

abbrev arms : Bytes
arms = ascii "Method::Ping(p) => { pong(p) }, Method::Stop(_) => stop(),"

arm-found : arm_body arms 12 ≡ some (ascii " pong(p) ")
unfolding arm_body herdr_client.RustScan.Balanced.group_at herdr_client.RustScan.Balanced.block_at
    count_delimiter walk skip_non_code herdr_client.RustScan.Arms.when_found
    herdr_client.RustScan.Bytes.index_of herdr_client.RustScan.Bytes.contains_any
    herdr_client.RustScan.Bytes.count_blanks
arm-found = refl

bodies-MayBe_example :
    MayBe (ArmBody arms 12) (arm_body arms 12)
    × (MayBe (GuardBlock arms 12) (guarded_block arms 12)
        × MayBe (BoundBlock arms 12) (bound_block arms 12))
bodies-MayBe_example = bodies-MayBe arms 12

abbrev guarded : Bytes
guarded = ascii "matches!(m, Method::Ping(_)) && ok { pong() }"

guard-found : guarded_block guarded 24 ≡ some (ascii " pong() ")
unfolding guarded_block herdr_client.RustScan.Balanced.group_at
    herdr_client.RustScan.Balanced.block_at count_delimiter walk skip_non_code
    herdr_client.RustScan.Arms.when_found herdr_client.RustScan.Bytes.index_of
    herdr_client.RustScan.Bytes.contains_any herdr_client.RustScan.Bytes.last_index
    herdr_client.RustScan.Bytes.index_byte
guard-found = refl

abbrev bound : Bytes
bound = ascii "if let Method::Ping(p) = m { pong(p) }"

bound-found : bound_block bound 19 ≡ some (ascii " pong(p) ")
unfolding bound_block herdr_client.RustScan.Balanced.group_at
    herdr_client.RustScan.Balanced.block_at count_delimiter walk skip_non_code
    herdr_client.RustScan.Arms.when_found herdr_client.RustScan.Bytes.has_prefix
    herdr_client.RustScan.Bytes.contains_any herdr_client.RustScan.Bytes.index_byte
bound-found = refl

abbrev text : Bytes
text = ascii "fn a() {}\n#[cfg(test)]\nmod t { x }\nfn b() {}"

text-production : production text ≡ some (ascii "fn a() {}\n            \n           \nfn b() {}")
unfolding production herdr_client.RustScan.Views.next_span herdr_client.RustScan.Bytes.index_of
    herdr_client.RustScan.Bytes.index_byte herdr_client.RustScan.Balanced.block_at count_delimiter
    walk skip_non_code herdr_client.RustScan.Views.blank_range
text-production = refl

Views-Complement_example : Views text (production text) (tests text)
Views-Complement_example = Views-Complement text
