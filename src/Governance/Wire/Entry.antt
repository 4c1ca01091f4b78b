-- ===== src/Governance/Wire/Entry.antt =====
-- crates/intranet-governance/src/wire.rs: entries on the wire, `encode_entry` and `decode_entry`.
use distributed_intranet.Base.{ℕ, Bool}
use distributed_intranet.Crypto.{Crypto}
use distributed_intranet.Crypto.Enc.{Enc, ◌▸◌, domain, option, fixed, i64}
use distributed_intranet.Crypto.Dec.{
  Decoder, ◌>>=◌, ◌>>◌, give, refuse, check, get_domain, get_option, get_fixed, get_i64, finish,
}
use distributed_intranet.Governance.Entry.{LogEntry, verify_signature}
use distributed_intranet.Governance.Wire.{WireError, bad_signature, get_key}
use distributed_intranet.Governance.Wire.Body.{put_body, get_body}

unfoldable pub put_entry : LogEntry → Enc → Enc
unfolding option fixed i64 put_body
put_entry entry e =
    e
    ▸ option entry.parent (fixed 32)
    ▸ i64 entry.timestamp
    ▸ fixed 32 entry.author
    ▸ put_body entry.body
    ▸ fixed 64 entry.signature

unfoldable pub encode_entry : LogEntry → Enc
unfolding domain put_entry
encode_entry entry = domain "intranet.wire.entry.v1" ▸ put_entry entry

module _ (valid_key : ℕ → Bool) where
  unfoldable pub get_entry : Decoder WireError LogEntry
  unfolding get_option get_fixed get_i64 get_key get_body give ◌>>=◌
  get_entry = do
    parent ← get_option (get_fixed 32)
    timestamp ← get_i64
    author ← get_key valid_key
    body ← get_body valid_key
    signature ← get_fixed 64
    give (record {
      parent = parent;
      timestamp = timestamp;
      author = author;
      body = body;
      signature = signature;
    })

  -- What `decode_entry` does once the entry is read.
  unfoldable pub authenticate : Crypto → LogEntry → Decoder WireError LogEntry
  unfolding finish verify_signature check refuse give ◌>>=◌
  authenticate crypto entry = do
    finish
    check (verify_signature crypto entry) (refuse bad_signature)
    give entry

  unfoldable pub decode_entry : Crypto → Decoder WireError LogEntry
  unfolding get_domain get_entry authenticate ◌>>=◌
  decode_entry crypto = do
    get_domain "intranet.wire.entry.v1"
    entry ← get_entry
    authenticate crypto entry
