-- ===== src/Signal/Mappings.antt =====
-- What a stored mapping of src/signal/lid-mapping.ts is read back as.
use nexawhats.Common.{◌≡◌, ◌≢◌, true, none, some}
use nexawhats.Common.Text.{Str}
use nexawhats.Common.Dict.{lookup, put}
use nexawhats.Jid.{FullJid, jid_decode, is_pn_user, is_lid_user}
use nexawhats.Messages.LruCache.{LruCache, IsCache}
use nexawhats.Messages.Receive.{present}
use nexawhats.Signal.LidPairs.{LidPnPair, pn_key, reverse_key}
use nexawhats.Signal.LidMapping.{LidMappingStore, both}

module _ (c : LruCache Str) (sound : IsCache c) (p : LidPnPair) (l n : FullJid)
    (lid_side : is_lid_user (some p.lid_jid) ≡ true) (pn_side : is_pn_user (some p.pn_jid) ≡ true)
    (lid_decodes : jid_decode p.lid_jid ≡ some l) (pn_decodes : jid_decode p.pn_jid ≡ some n)
    (lid_named : present (some l.user) ≡ true) (pn_named : present (some n.user) ≡ true)
    (apart : reverse_key l.user ≢ n.user) (s : LidMappingStore c)
    (not_cached : c.get (pn_key n.user) s.cache ≡ none)
    (not_stored : lookup n.user s.db ≡ none) where
  abbrev after : LidMappingStore c
  after = record {
    db = put (reverse_key l.user) n.user (put n.user l.user s.db);
    cache = both c n.user l.user s.cache;
  }
