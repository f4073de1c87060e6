-- ===== src/Chain/Work.antt =====
-- CoinBlockHeader::getTarget and getWork of CoinNodeData.cpp; a BigInt is a number.
use coin_vault.Common.{ℕ, ◌+◌, ◌-◌, ◌*◌, ◌/◌, ◌%◌, ◌^◌, leb, ◌==◌, if◌then◌else◌}
use coin_vault.Wire.BlockHeader.{BlockHeader}

-- `bits >> 24`, and `bits & 0x007fffff`
unfoldable pub get_target : BlockHeader → ℕ
get_target h =
    let exponent = h.bits / 2 ^ 24 in
    let mantissa = h.bits % 2 ^ 23 in
    if leb exponent 3
    then mantissa / 2 ^ (8 * (3 - exponent))
    else mantissa * 2 ^ (8 * (exponent - 3))

unfoldable pub get_work : BlockHeader → ℕ
unfolding get_target
get_work h = if get_target h == 0 then 0 else 2 ^ 256 / (get_target h + 1)
