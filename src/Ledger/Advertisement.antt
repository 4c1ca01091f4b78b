-- ===== src/Ledger/Advertisement.antt =====
-- crates/intranet-ledger/src/advertisement.rs: what one node advertises.
use distributed_intranet.Base.{ℕ, Bool, true, not, ◌&&◌, ◌||◌, Option, none, some}
use distributed_intranet.Base.Tests.{ltb, leb, if◌then◌else◌}
use distributed_intranet.Base.Int.{ℤ, leb_ℤ}
use distributed_intranet.Crypto.{Crypto}
use distributed_intranet.Crypto.Enc.{Enc, ◌▸◌, domain, fixed, u64, option, u32, bool, u8, i64}
use distributed_intranet.Crypto.Time.{Timestamp, millis_since}

pub record TimeOfDayWindow : Type 0 where
  pub start_minute : ℕ
  pub end_minute : ℕ

-- `TimeOfDayWindow::contains`: a window may wrap round past midnight.
unfoldable pub window_contains : TimeOfDayWindow → ℕ → Bool
window_contains w minute =
    if leb w.start_minute w.end_minute
    then leb w.start_minute minute && ltb minute w.end_minute
    else leb w.start_minute minute || ltb minute w.end_minute

pub record BandwidthCap : Type 0 where
  pub up_bytes_per_sec : ℕ
  pub down_bytes_per_sec : ℕ
  pub active_window : Option TimeOfDayWindow

abbrev in_window : Option TimeOfDayWindow → ℕ → Bool
in_window none minute = true
in_window (some w) minute = window_contains w minute

unfoldable pub active_at : BandwidthCap → ℕ → Bool
unfolding window_contains
active_at cap minute = in_window cap.active_window minute

pub data ComputeClass : Type 0 where
  minimal modest substantial : ComputeClass

unfoldable pub compute_tag : ComputeClass → ℕ
compute_tag minimal = 0
compute_tag modest = 1
compute_tag substantial = 2

pub record CapabilityAdvertisement : Type 0 where
  pub network : ℕ
  pub node : ℕ
  pub storage_offered : ℕ
  pub bandwidth_cap : BandwidthCap
  pub relay_bootstrap_willing : Bool
  pub relay_media_willing : Bool
  pub compute_class : ComputeClass
  pub issued_at : Timestamp
  pub signature : ℕ

unfoldable pub encode_window : TimeOfDayWindow → Enc → Enc
unfolding u32
encode_window w e = e ▸ u32 w.start_minute ▸ u32 w.end_minute

unfoldable pub encode_cap : BandwidthCap → Enc → Enc
unfolding u64 option encode_window
encode_cap cap e =
    e
    ▸ u64 cap.up_bytes_per_sec
    ▸ u64 cap.down_bytes_per_sec
    ▸ option cap.active_window encode_window

unfoldable pub advertisement_payload : CapabilityAdvertisement → Enc
unfolding domain fixed u64 encode_cap bool u8 compute_tag i64
advertisement_payload a =
    domain "intranet.capability-advertisement.v1"
    ▸ fixed 32 a.network
    ▸ fixed 32 a.node
    ▸ u64 a.storage_offered
    ▸ encode_cap a.bandwidth_cap
    ▸ bool a.relay_bootstrap_willing
    ▸ bool a.relay_media_willing
    ▸ u8 (compute_tag a.compute_class)
    ▸ i64 a.issued_at

unfoldable pub advertisement_verifies : Crypto → CapabilityAdvertisement → Bool
unfolding advertisement_payload
advertisement_verifies crypto a = crypto.verify a.node (advertisement_payload a) a.signature

unfoldable pub is_stale : CapabilityAdvertisement → Timestamp → ℤ → Bool
unfolding millis_since
is_stale a now ttl_millis = not (leb_ℤ (millis_since now a.issued_at) ttl_millis)
