-- ===== src/Signal/Known.antt =====
-- That the store of src/signal/lid-mapping.ts goes on to know a LID, as src/signal/libsignal.ts needs.
use nexawhats.Common.{
  ◌≡◌, ◌≢◌, ◌⊎◌, inl, inr, refl, ap, ◌∙◌, arith, true, Option, none, some, List, [], ◌∷◌, get_elem?,
}
use nexawhats.Common.Text.{Str}
use nexawhats.Common.Dict.{lookup, put}
use nexawhats.Jid.{FullJid, jid_decode, is_pn_user}
use nexawhats.Messages.LruCache.{LruCache, IsCache}
use nexawhats.Messages.Receive.{present}
use nexawhats.Signal.LidPairs.{LidPnPair, pn_key, lid_key, device_lid, first_lid}
use nexawhats.Signal.LidMapping.{
  LidMappingStore, both, find_lid_user, resolve_all, finish_lookup, get_lids_for_pns,
  get_lid_for_pn,
}
use nexawhats.Signal.Sessions.{IsKnown}

pub keys_differ : (u v : Str) → pn_key u ≢ lid_key v
keys_differ u v e = grind (arith, ap (λ l. get_elem? l 0) e)

module _ (c : LruCache Str) (usync : Option (List Str → Option (List LidPnPair))) (pn : Str)
    (n : FullJid) (pn_side : is_pn_user (some pn) ≡ true) (pn_decodes : jid_decode pn ≡ some n)
    (user : Str) where
  resolved :
      (s : LidMappingStore c)
      → (find_lid_user c n.user s).1 ≡ some user
      → resolve_all c (pn ∷ []) (record { store = s; fetch = []; pairs = [] }) ≡ record {
        store = (find_lid_user c n.user s).0;
        fetch = [];
        pairs = (pn, record { lid_jid = device_lid n user; pn_jid = pn }) ∷ [];
      }
  unfolding resolve_all put
  resolved s found = rw (pn_side, pn_decodes, found, resolve_all) refl

  pub get_lid_for_pn-found :
      (s : LidMappingStore c)
      → (find_lid_user c n.user s).1 ≡ some user
      → get_lid_for_pn c usync pn s ≡ ((find_lid_user c n.user s).0, some (device_lid n user))
  unfolding get_lid_for_pn get_lids_for_pns finish_lookup
  get_lid_for_pn-found s found =
      ap (λ r. ((finish_lookup c usync r).0, first_lid (finish_lookup c usync r).1))
        (resolved s found)

  module _ (sound : IsCache c) (named : present (some user) ≡ true) where
    -- The mapping is stored, and not contradicted by the cache.
    pub record Knows (s : LidMappingStore c) : Type 0 where
      pub stored : lookup n.user s.db ≡ some user
      pub cached :
          (c.get (pn_key n.user) s.cache ≡ none) ⊎ (c.get (pn_key n.user) s.cache ≡ some user)

    cached_after :
        (cache : c.State)
        → (c.get (pn_key n.user) (both c n.user user cache) ≡ none)
          ⊎ (c.get (pn_key n.user) (both c n.user user cache) ≡ some user)
    cached_after cache =
        elim (sound.get-set_other (pn_key n.user) (lid_key user) n.user
          (c.set (pn_key n.user) user cache) (keys_differ n.user user)) [
            | inl evicted ↦ inl evicted
            | inr kept ↦ inr (kept ∙ sound.get-set (pn_key n.user) user cache)
          ]

    find_lid_user-Knows :
        (s : LidMappingStore c)
        → Knows s
        → ((find_lid_user c n.user s).1 ≡ some user) × Knows (find_lid_user c n.user s).0
    unfolding find_lid_user
    find_lid_user-Knows s k = elim k.cached [
      | inl missing ↦
          rw (missing, k.stored, find_lid_user, named)
            (refl, record { stored = k.stored; cached = cached_after s.cache })
      | inr hit ↦ rw (hit, find_lid_user, named) (refl, k)
    ]

    pub lookup_of-IsKnown :
        IsKnown
          (record { State = LidMappingStore c; get_lid_for_pn = get_lid_for_pn c usync })
          pn
          (device_lid n user)
          Knows
    lookup_of-IsKnown = record {
      found = λ s k. ap (λ r. r.1) (get_lid_for_pn-found s (find_lid_user-Knows s k).0);
      kept = λ s k.
          rw (get_lid_for_pn-found s (find_lid_user-Knows s k).0) (find_lid_user-Knows s k).1;
    }
