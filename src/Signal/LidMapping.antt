-- ===== src/Signal/LidMapping.antt =====
-- src/signal/lid-mapping.ts: which LID belongs to which phone number. `db` is the bucket
-- `lid-mapping` of the key store, and the cache is that of lru-cache, which the reads do not change
-- here but for the age of its entries. The entries of an object stand in the order of insertion,
-- which is that of the code for users that do not spell a number below 2^32 - 1.
use nexawhats.Common.{if◌then◌else◌, true, false, not, ◌||◌, Option, none, some, List, [], ◌∷◌, map}
use nexawhats.Common.Text.{Str}
use nexawhats.Common.Dict.{Dict, lookup, put, assign}
use nexawhats.Jid.Numbers.{Number}
use nexawhats.Jid.{jid_decode, is_pn_user, is_lid_user, is_hosted_pn_user}
use nexawhats.Messages.LruCache.{LruCache}
use nexawhats.Messages.Receive.{present}
use nexawhats.Signal.LidPairs.{
  LidPnPair, pn_key, lid_key, reverse_key, is_valid_pair, is_same, batch_of, device_lid, add_fetch,
  add_answers, values_of, answers_of, first_lid, device_pn,
}

module _ (c : LruCache Str) where
  pub record LidMappingStore : Type 0 where
    pub cache : c.State
    pub db : Dict Str

  abbrev pub both : Str → Str → c.State → c.State
  both pn_user lid_user s = c.set (lid_key lid_user) pn_user (c.set (pn_key pn_user) lid_user s)

  -- The LID user of a phone number, out of the cache or else out of the store.
  unfoldable pub find_lid_user : Str → LidMappingStore → LidMappingStore × Option Str
  find_lid_user pn_user s =
      let cached = c.get (pn_key pn_user) s.cache in
      let stored = lookup pn_user s.db in
      if present cached then (s, cached) else elim stored [
        | none ↦ (s, none)
        | some lid_user ↦
            if present (some lid_user)
            then (record s { cache = both pn_user lid_user s.cache }, some lid_user)
            else (s, none)
      ]

  -- The loop over the pairs: the new ones, by the user of their phone number. `none` when it
  -- returns early, on a JID that does not decode.
  unfoldable pub collect_pairs :
      List LidPnPair → Dict Str → LidMappingStore → LidMappingStore × Option (Dict Str)
  collect_pairs [] pair_map s = (s, some pair_map)
  collect_pairs (p ∷ ps) pair_map s = elim (is_valid_pair p) [
    | false ↦ collect_pairs ps pair_map s
    | true ↦ elim (jid_decode p.lid_jid) [
      | none ↦ (s, none)
      | some l ↦ elim (jid_decode p.pn_jid) [
        | none ↦ (s, none)
        | some n ↦
            collect_pairs ps
              (if is_same (find_lid_user n.user s).1 l.user
                then pair_map
                else put n.user l.user pair_map)
              (find_lid_user n.user s).0
      ]
    ]
  ]

  unfoldable pub cache_all : Dict Str → c.State → c.State
  cache_all [] s = s
  cache_all ((pn_user, lid_user) ∷ ps) s = cache_all ps (both pn_user lid_user s)

  unfoldable pub write_pairs : LidMappingStore × Option (Dict Str) → LidMappingStore
  write_pairs (s, none) = s
  write_pairs (s, some []) = s
  write_pairs (s, some (p ∷ ps)) = record {
    db = assign s.db (batch_of (p ∷ ps) []);
    cache = cache_all (p ∷ ps) s.cache;
  }

  unfoldable pub store_lid_pn_mappings : List LidPnPair → LidMappingStore → LidMappingStore
  store_lid_pn_mappings pairs s = write_pairs (collect_pairs pairs [] s)

  pub record Resolved : Type 0 where
    pub store : LidMappingStore
    pub fetch : Dict (List Number)
    pub pairs : Dict LidPnPair

  -- The loop of `getLIDsForPNs`. A user that is found is not empty, so that its last test never
  -- fails.
  unfoldable pub resolve_all : List Str → Resolved → Resolved
  resolve_all [] r = r
  resolve_all (pn ∷ pns) r = elim (is_pn_user (some pn) || is_hosted_pn_user (some pn)) [
    | false ↦ resolve_all pns r
    | true ↦ elim (jid_decode pn) [
      | none ↦ resolve_all pns r
      | some d ↦ elim (find_lid_user d.user r.store).1 [
        | none ↦
            resolve_all pns (record r {
              store = (find_lid_user d.user r.store).0;
              fetch = add_fetch pn d r.fetch;
            })
        | some lid_user ↦ resolve_all pns (record r {
          store = (find_lid_user d.user r.store).0;
          pairs = put pn (record { lid_jid = device_lid d lid_user; pn_jid = pn }) r.pairs;
        })
      ]
    ]
  ]

  unfoldable pub finish_lookup :
      Option (List Str → Option (List LidPnPair))
      → Resolved
      → LidMappingStore × Option (List LidPnPair)
  finish_lookup usync r = elim r.fetch [
    | [] ↦ (r.store, some (values_of r.pairs))
    | t ∷ ts ↦ elim (answers_of usync (map (λ e. e.0) (t ∷ ts))) [
      | [] ↦ (r.store, none)
      | p ∷ ps ↦ (
        store_lid_pn_mappings (p ∷ ps) r.store,
        some (values_of (add_answers (p ∷ ps) (t ∷ ts) r.pairs)),
      )
    ]
  ]

  unfoldable pub get_lids_for_pns :
      Option (List Str → Option (List LidPnPair))
      → List Str
      → LidMappingStore
      → LidMappingStore × Option (List LidPnPair)
  get_lids_for_pns usync pns s =
      finish_lookup usync (resolve_all pns (record { store = s; fetch = []; pairs = [] }))

  unfoldable pub get_lid_for_pn :
      Option (List Str → Option (List LidPnPair))
      → Str
      → LidMappingStore
      → LidMappingStore × Option Str
  get_lid_for_pn usync pn s = let r = get_lids_for_pns usync (pn ∷ []) s in (r.0, first_lid r.1)

  -- The phone number of a LID user.
  unfoldable pub find_pn_user : Str → LidMappingStore → LidMappingStore × Option Str
  find_pn_user lid_user s =
      let cached = c.get (lid_key lid_user) s.cache in
      if present cached then (s, cached) else elim (lookup (reverse_key lid_user) s.db) [
        | none ↦ (s, none)
        | some pn_user ↦
            if present (some pn_user)
            then (record s { cache = c.set (lid_key lid_user) pn_user s.cache }, some pn_user)
            else (s, none)
      ]

  unfoldable pub get_pn_for_lid : Str → LidMappingStore → LidMappingStore × Option Str
  get_pn_for_lid jid s = if not (is_lid_user (some jid)) then (s, none) else elim (jid_decode jid) [
    | none ↦ (s, none)
    | some d ↦ elim (find_pn_user d.user s).1 [
      | none ↦ ((find_pn_user d.user s).0, none)
      | some pn_user ↦ ((find_pn_user d.user s).0, some (device_pn d pn_user))
    ]
  ]
