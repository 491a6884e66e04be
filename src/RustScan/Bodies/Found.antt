-- ===== src/RustScan/Bodies/Found.antt =====
-- internal/cmd/herdrsource/rust.go: the bodies of arms, guards and `if let` tests.
use herdr_client.Prelude.{ℕ}
use herdr_client.RustScan.Bytes.{Bytes}
use herdr_client.RustScan.Arms.{arm_body, guarded_block, bound_block}
use herdr_client.RustScan.Bodies.{ArmBody, GuardBlock, BoundBlock, MayBe}
use herdr_client.RustScan.Bodies.Arm.{arm_body-MayBe}
use herdr_client.RustScan.Bodies.Guard.{guarded_block-MayBe}
use herdr_client.RustScan.Bodies.Bound.{bound_block-MayBe}

-- A body that armBody, guardedBlock or boundBlock returns stands where it should. For an arm: behind a
-- group at the index, a text without ";{}", the first "=>" and the blanks behind it, as a block or as
-- an expression before a comma or a closing delimiter. For a guard: as the first block behind the
-- group of the last "matches!" before the index, in one paragraph with the index, with no ";=" between
-- group and block. For an if let: as the first block behind the first "=" behind a group at the index,
-- where that "=" is no "=>", with no ";{}" before it and no ";}" behind it.
pub bodies-MayBe :
    (src : Bytes) (at : ℕ)
    → MayBe (ArmBody src at) (arm_body src at)
      × (MayBe (GuardBlock src at) (guarded_block src at)
          × MayBe (BoundBlock src at) (bound_block src at))
bodies-MayBe src at =
    (arm_body-MayBe src at, (guarded_block-MayBe src at, bound_block-MayBe src at))
