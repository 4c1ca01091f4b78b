-- ===== src/Crypto/Time.antt =====
-- crates/intranet-crypto/src/time.rs: `Timestamp`, milliseconds in an i64.
use distributed_intranet.Base.Int.{ℤ, ◌+ℤ◌, ◌-ℤ◌, wrap, saturate}

abbrev pub Timestamp : Type 0
Timestamp = ℤ

-- `self.0 - earlier.0`, which wraps round in a release build.
unfoldable pub millis_since : Timestamp → Timestamp → ℤ
unfolding wrap
millis_since self earlier = wrap (self -ℤ earlier)

unfoldable pub plus_millis : Timestamp → ℤ → Timestamp
unfolding saturate
plus_millis self millis = saturate (self +ℤ millis)
