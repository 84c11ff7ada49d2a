-- ===== src/Signal/Sessions.antt =====
-- Where the sessions of src/signal/libsignal.ts stand, of a phone number that has a LID.
use nexawhats.Common.{◌≡◌, ◌≢◌, refl, ap, ◌∙◌, true, some, [], ◌∷◌}
use nexawhats.Common.Text.{Str}
use nexawhats.Common.Dict.{Dict, lookup, put, remove, lookup-put_same, lookup-remove_other}
use nexawhats.Messages.Receive.{present}
use nexawhats.Signal.Address.{
  ProtocolAddress, address_text, address, jid_to_signal_protocol_address,
}
use nexawhats.Signal.Repository.{
  LidLookup, pn_jid_of, exists, SessionRecord, store_at, deserialized, resolve_lid_signal_address,
  Repository, load_session, store_session, validate_session, addresses_of, remove_all,
  delete_session,
}

-- A mapping store in the states `Knows` gives a LID for a phone number, and goes on to do so.
pub record IsKnown (lids : LidLookup) (pn lid : Str) (Knows : lids.State → Type 0) : Type 0 where
  pub found : (s : lids.State) → Knows s → (lids.get_lid_for_pn pn s).1 ≡ some lid
  pub kept : (s : lids.State) → Knows s → Knows (lids.get_lid_for_pn pn s).0

module _ (lids : LidLookup) (pn lid : Str) (Knows : lids.State → Type 0)
    (known : IsKnown lids pn lid Knows) {S V : Type 0} (records : SessionRecord S V) (jid : Str)
    (a b : ProtocolAddress) (session : S)
    (jid_address : jid_to_signal_protocol_address jid ≡ address a)
    (is_pn : pn_jid_of (address_text a) ≡ some pn) (named : present (some lid) ≡ true)
    (lid_address : jid_to_signal_protocol_address lid ≡ address b)
    (differ : address_text a ≢ address_text b)
    (back : records.deserialize (records.serialize session) ≡ some session)
    (open_one : records.have_open_session session ≡ true) where
  resolve_known :
      (s : lids.State)
      → Knows s
      → resolve_lid_signal_address lids (address_text a) s
        ≡ ((lids.get_lid_for_pn pn s).0, some (address_text b))
  unfolding resolve_lid_signal_address
  resolve_known s k =
      rw (is_pn, known.found s k, lid_address, resolve_lid_signal_address, named) refl

  abbrev stored_in : Repository lids records → Repository lids records
  stored_in r = record {
    lid_mapping = (lids.get_lid_for_pn pn r.lid_mapping).0;
    sessions = put (address_text b) (records.serialize session) r.sessions;
  }

  store_session-known :
      (r : Repository lids records)
      → Knows r.lid_mapping
      → store_session lids records (address_text a) session r ≡ (stored_in r, true)
  unfolding store_session
  store_session-known r k = ap (store_at lids records session r) (resolve_known r.lid_mapping k)

  load_session-known :
      (r : Repository lids records)
      → Knows r.lid_mapping
      → lookup (address_text b) r.sessions ≡ some (records.serialize session)
      → (load_session lids records (address_text a) r).1 ≡ some session
  unfolding load_session
  load_session-known r k there =
      rw (resolve_known r.lid_mapping k, load_session) (ap (deserialized lids records) there ∙ back)

  delete_session-one :
      (r : Repository lids records)
      → delete_session lids records (jid ∷ []) r
        ≡ (record r { sessions = remove (address_text a) r.sessions }, true)
  unfolding delete_session addresses_of remove_all
  delete_session-one r = rw (jid_address, delete_session, addresses_of) refl

  validate_session-loaded :
      (r : Repository lids records)
      → (load_session lids records (address_text a) r).1 ≡ some session
      → (validate_session lids records jid r).1 ≡ exists
  unfolding validate_session
  validate_session-loaded r h = rw (jid_address, validate_session, h, open_one) refl

  there :
      (sessions : Dict V)
      → lookup (address_text b) (put (address_text b) (records.serialize session) sessions)
        ≡ some (records.serialize session)
  there sessions = lookup-put_same (address_text b) (records.serialize session) sessions

  still_there :
      (sessions : Dict V)
      → lookup
          (address_text b)
          (remove (address_text a) (put (address_text b) (records.serialize session) sessions))
        ≡ some (records.serialize session)
  still_there sessions =
      lookup-remove_other (address_text a) (address_text b)
        (put (address_text b) (records.serialize session) sessions) differ
      ∙ there sessions

  -- A session that is stored under the address of a phone number with a LID is loaded again. When the
  -- sessions of that phone number are then deleted, which throws nothing, it is still there, and
  -- `validateSession` says so: it stands under the address of the LID, which is not looked up. The LID is
  -- known and has another address than the number, and the record is open and reads back as it was.
  pub validate_session-delete_session :
      (r : Repository lids records)
      → Knows r.lid_mapping
      → let stored = (store_session lids records (address_text a) session r).0 in
        let deleted = delete_session lids records (jid ∷ []) stored in
        ((load_session lids records (address_text a) stored).1 ≡ some session)
        × (deleted.1 ≡ true)
        × ((validate_session lids records jid deleted.0).1 ≡ exists)
  validate_session-delete_session r k =
      let k' = known.kept r.lid_mapping k in
      let gone : Repository lids records = record (stored_in r) {
        sessions = remove (address_text a) (stored_in r).sessions;
      } in
      rw (store_session-known r k, delete_session-one (stored_in r))
        (
          load_session-known (stored_in r) k' (there r.sessions),
          refl,
          validate_session-loaded gone (load_session-known gone k' (still_there r.sessions)),
        )
