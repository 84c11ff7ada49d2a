-- ===== src/Messages/DeviceCache.antt =====
-- What the cache of `getUSyncDevices` of src/messages/send-relay.ts gives for a user that was not
-- alone in a list.
use nexawhats.Common.{
  ℕ, ◌+◌, ◌-◌, ◌<◌, ltb, ◌≡◌, refl, ap, ◌∙◌, arith, Bool, true, Option, none, some, List, [], ◌∷◌,
  ◌++◌,
}
use nexawhats.Common.Text.{Str}
use nexawhats.Common.Dict.{lookup, lookup-put_same}
use nexawhats.Jid.{FullJid, jid_decode, jid_normalized_user}
use nexawhats.Binary.{Node}
use nexawhats.Messages.Receive.{present}
use nexawhats.Messages.Devices.{
  DeviceInfo, CachedDevices, device_cache_ttl_ms, usync_query, answered, Cache, fetch, take_answer,
  find_devices, find_all, get_usync_devices,
}

module _ (q : Node → Option Node) (ignore : Bool) (jid : Str) (d : FullJid) (result : Node)
    (decodes : jid_decode jid ≡ some d) (named : present (some d.user) ≡ true)
    (no_device : d.device ≡ none) (answers : q usync_query ≡ some result) where
  find_devices-fetched :
      (now : ℕ) (s : Cache × List DeviceInfo)
      → lookup (jid_normalized_user jid) s.0 ≡ none
      → find_devices (some q) ignore now true jid s ≡ take_answer (some q) ignore now jid result s
  unfolding find_devices fetch
  find_devices-fetched now s missing =
      rw (decodes, named, missing, no_device, answers, find_devices, fetch) refl

  find_devices-cached :
      (later : ℕ) (cache : Cache) (e : CachedDevices)
      → lookup (jid_normalized_user jid) cache ≡ some e
      → later < e.ts + device_cache_ttl_ms
      → (find_devices (some q) ignore later true jid (cache, [])).1 ≡ e.devices
  unfolding find_devices
  find_devices-cached later cache e there soon =
      rw (decodes, named, there, soon_true, find_devices) refl
    where
      soon_true : ltb (later - e.ts) device_cache_ttl_ms ≡ true
      soon_true = ground arith

  take_answer-cached :
      (now : ℕ) (s : Cache × List DeviceInfo)
      → (one : DeviceInfo) (more : List DeviceInfo) → s.1 ++ answered ignore result ≡ one ∷ more
      → (lookup (jid_normalized_user jid) (take_answer (some q) ignore now jid result s).0
          ≡ some (record { devices = one ∷ more; ts = now }))
        × ((take_answer (some q) ignore now jid result s).1 ≡ one ∷ more)
  unfolding take_answer
  take_answer-cached now s one more e = (
    rw (e, take_answer)
        (lookup-put_same (jid_normalized_user jid) (record { devices = one ∷ more; ts = now }) s.0),
    e,
  )

  find_all-append :
      (now : ℕ) (use_cache : Bool) (jids : List Str) (s : Cache × List DeviceInfo)
      → find_all (some q) ignore now use_cache (jids ++ (jid ∷ [])) s
        ≡ find_devices
            (some q)
            ignore
            now
            use_cache
            jid
            (find_all (some q) ignore now use_cache jids s)
  unfolding find_all
  find_all-append now use_cache [] s = refl
  find_all-append now use_cache (j ∷ jids) s =
      find_all-append now use_cache jids (find_devices (some q) ignore now use_cache j s)

  -- When the devices of a list of users are asked for, the last of whom has a name, no device and
  -- nothing in the cache, and the server answers for that one and any device was found, then asking for
  -- that user alone, within five minutes, gives the devices of all users of the list.
  pub get_usync_devices-shared :
      (earlier : List Str) (cache : Cache) (now later : ℕ) (one : DeviceInfo)
      (more : List DeviceInfo)
      → lookup
          (jid_normalized_user jid)
          (get_usync_devices (some q) now earlier true ignore cache).0
        ≡ none
      → later < now + device_cache_ttl_ms
      → (get_usync_devices (some q) now earlier true ignore cache).1 ++ answered ignore result
        ≡ one ∷ more
      → let first = get_usync_devices (some q) now (earlier ++ (jid ∷ [])) true ignore cache in
        (first.1 ≡ one ∷ more)
        × ((get_usync_devices (some q) later (jid ∷ []) true ignore first.0).1 ≡ one ∷ more)
  unfolding get_usync_devices find_all
  get_usync_devices-shared earlier cache now later one more missing soon found =
      let before = find_all (some q) ignore now true earlier (cache, []) in
      let (kept, all_found) = take_answer-cached now before one more found in
      let run =
        find_all-append now true earlier (cache, []) ∙ find_devices-fetched now before missing in
      (
        ap (λ s. s.1) run ∙ all_found,
        find_devices-cached later
            (find_all (some q) ignore now true (earlier ++ (jid ∷ [])) (cache, [])).0
            (record { devices = one ∷ more; ts = now })
            (ap (λ (s : Cache × List DeviceInfo). lookup (jid_normalized_user jid) s.0) run ∙ kept)
            soon,
      )
