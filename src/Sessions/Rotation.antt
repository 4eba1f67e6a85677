-- ===== src/Sessions/Rotation.antt =====
-- One row at a time: `revoke` twice, and `rotate`.
use mathlib.Core.Option
use ai_auto_test_platform.Prelude.{
  ℕ, ◌+◌, ◌≡◌, ◌≢◌, refl, ap, sym, ◌∙◌, String, Option, none, some, List, [], ◌∷◌, length, select,
  select-kept, All, true, false, false≢true, str_eq, Bool-cases, inl, inr, eq_iff, eq_refl, arith,
  ok, Ensures, Ensures-bind, Ensures-if, Returns,
}
use ai_auto_test_platform.Runtime.{Runtime}
use ai_auto_test_platform.Sessions.Rows.{
  RefreshSession, Credential, Store, is_active, append-sessions,
}
use ai_auto_test_platform.Sessions.Service.{
  for_update, has_id, find_session, is_open, mark_revoked, mark_rotated, Caller, revoke_found,
  revoke, audit_revoked, create, rotate, new_row,
}
use ai_auto_test_platform.Sessions.Keys.{Distinct, IsStored}

module _ (id : String) (change : RefreshSession → RefreshSession) where
  find-changed :
      (rows : List RefreshSession) (r : RefreshSession)
      → ((x : RefreshSession) → (change x).session_id ≡ x.session_id)
      → find_session id rows ≡ some r
      → find_session id (for_update (has_id id) change rows) ≡ some (change r)
  unfolding find_session for_update
  find-changed [] r same e = cc
  find-changed (x ∷ rows) r same e = ground (arith, same x, find-changed rows r same)

  unchanged_if_absent :
      (rows : List RefreshSession)
      → find_session id rows ≡ none
      → for_update (has_id id) change rows ≡ rows
  unfolding find_session for_update
  unchanged_if_absent [] e = refl
  unchanged_if_absent (x ∷ rows) e = ground (arith, unchanged_if_absent rows)

  find-others :
      (j : String) (rows : List RefreshSession)
      → ((x : RefreshSession) → (change x).session_id ≡ x.session_id)
      → id ≢ j
      → find_session j (for_update (has_id id) change rows) ≡ find_session j rows
  unfolding find_session for_update
  find-others j [] same ne = refl
  find-others j (x ∷ rows) same ne =
      ground
        (arith, same x, find-others j rows same ne, eq_iff x.session_id id, eq_iff x.session_id j)

  apart-absent :
      (x : RefreshSession) (rows : List RefreshSession)
      → x.session_id ≡ id
      → All (λ q. str_eq x.session_id q.session_id ≡ false) rows
      → find_session id rows ≡ none
  unfolding find_session
  apart-absent x [] e h = refl
  apart-absent x (q ∷ rows) e h =
      ground
        (arith, apart-absent x rows e h.1, eq_iff x.session_id q.session_id, eq_iff q.session_id id)

  -- Closing the one open row of an id takes exactly one from the open rows.
  open-closed :
      (credential_id : String) (rows : List RefreshSession) (r : RefreshSession)
      → Distinct rows
      → find_session id rows ≡ some r
      → is_open credential_id r ≡ true
      → ((x : RefreshSession) → is_active (change x).lifecycle_status ≡ false)
      → length (select (is_open credential_id) (for_update (has_id id) change rows)) + 1
        ≡ length (select (is_open credential_id) rows)
  unfolding find_session for_update
  open-closed credential_id [] r d e o closes = cc
  open-closed credential_id (x ∷ rows) r d e o closes = elim (Bool-cases (has_id id x)) [
    | inl hit ↦
        let same : for_update (has_id id) change rows ≡ rows =
          unchanged_if_absent rows (apart-absent x rows ((eq_iff x.session_id id).0 hit) d.0) in
        ground (arith, closes x, same)
    | inr miss ↦ ground (arith, open-closed credential_id rows r d.1)
  ]

module _ ⦃rt : Runtime⦄ (id reason : String) (now : ℕ) (caller : Caller) where
  again :
      (found : Option RefreshSession) (reason' : String) (now' : ℕ) (caller' : Caller) (db : Store)
      → find_session id db.sessions ≡ found
      → Ensures
          (λ done. revoke id reason' now' caller' done.1 ≡ ok (false, done.1))
          (revoke_found found id reason now caller db)
  unfolding revoke_found revoke
  again none reason' now' caller' db e = rw e refl
  again (some r) reason' now' caller' db e =
      Ensures-if _ (is_active r.lifecycle_status) _ _
        (λ _.
          Ensures-bind _ _ (audit_revoked caller reason id _) _ (append-sessions caller.context _ _)
            λ db' kept.
              rw (kept, find-changed id (mark_revoked reason now) db.sessions r (λ x. refl) e) refl)
        λ inactive. rw (e, revoke_found, inactive) refl

  -- A session is revoked once: whatever a first `revoke` of an id did, a second one of it, with any
  -- reason and at any time, returns False and changes neither the table nor the audit.
  pub revoke_twice :
      (reason' : String) (now' : ℕ) (caller' : Caller) (db : Store)
      → Ensures
          (λ done. revoke id reason' now' caller' done.1 ≡ ok (false, done.1))
          (revoke id reason now caller db)
  unfolding revoke
  revoke_twice reason' now' caller' db =
      again (find_session id db.sessions) reason' now' caller' db refl

-- After `rotate` of `current` to `made`, in place of `before`.
pub record Rotated (current made : RefreshSession) (credential_id : String)
    (before after : List RefreshSession) : Type 0 where
  pub old_links :
      Option.map (λ r. r.replaced_by_session_id) (find_session current.session_id after)
      ≡ some (some made.session_id)
  pub old_closed :
      Option.map (λ r. is_active r.lifecycle_status) (find_session current.session_id after)
      ≡ some false
  pub new_stored : find_session made.session_id after ≡ some made
  pub same_expiry : made.expires_at ≡ current.expires_at
  pub same_family : current.family_id ≢ "" → made.family_id ≡ current.family_id
  pub same_number :
      length (select (is_open credential_id) after) ≡ length (select (is_open credential_id) before)
  pub others :
      (j : String)
      → current.session_id ≢ j
      → made.session_id ≢ j
      → find_session j after ≡ find_session j before

module _ (current made : RefreshSession) (credential_id : String) (now : ℕ)
    (rows : List RefreshSession) (apart : str_eq made.session_id current.session_id ≡ false) where
  abbrev rotate_in : List RefreshSession → List RefreshSession
  rotate_in = for_update (has_id current.session_id) (mark_rotated made.session_id now)

  rotate_in-cons : rotate_in (made ∷ rows) ≡ made ∷ rotate_in rows
  unfolding for_update
  rotate_in-cons = rw apart refl

  find-made : find_session made.session_id (rotate_in (made ∷ rows)) ≡ some made
  unfolding find_session
  find-made = rw rotate_in-cons (ground (arith, eq_refl made.session_id))

  find-past :
      (j : String)
      → made.session_id ≢ j
      → find_session j (rotate_in (made ∷ rows)) ≡ find_session j (rotate_in rows)
  unfolding find_session
  find-past j ne = rw rotate_in-cons (ground (arith, eq_iff made.session_id j))

  module _ (held : IsStored rows current) where
    find-current :
        find_session current.session_id (rotate_in (made ∷ rows))
        ≡ some (mark_rotated made.session_id now current)
    find-current =
        find-past current.session_id (λ e. false≢true (sym apart ∙ (eq_iff _ _).1 e))
        ∙ find-changed current.session_id (mark_rotated made.session_id now) rows current
            (λ x. refl) held

    rotate_in-number :
        Distinct rows
        → is_open credential_id current ≡ true
        → is_open credential_id made ≡ true
        → length (select (is_open credential_id) (rotate_in (made ∷ rows)))
          ≡ length (select (is_open credential_id) rows)
    rotate_in-number d before after =
        ap (λ t. length (select (is_open credential_id) t)) rotate_in-cons
        ∙ ap length (select-kept (is_open credential_id) made _ after)
        ∙ omega (
          arith,
          open-closed current.session_id (mark_rotated made.session_id now) credential_id rows
              current d held before (λ x. refl),
        )

module _ ⦃rt : Runtime⦄ (current : RefreshSession) (credential : Credential) (now : ℕ)
    (caller : Caller) (db : Store) where
  -- The row that `rotate` adds.
  abbrev replacement : RefreshSession
  replacement =
      new_row credential caller.context (some current.family_id) (some current.expires_at)
        (rt.clock db.reads) (record db { reads = db.reads + 1 })

  replacement_apart :
      IsStored db.sessions current
      → find_session (rt.ulid db.drawn) db.sessions ≡ none
      → str_eq (rt.ulid db.drawn) current.session_id ≡ false
  replacement_apart held fresh = elim (Bool-cases (str_eq (rt.ulid db.drawn) current.session_id)) [
    | inl same ↦
        let e : rt.ulid db.drawn ≡ current.session_id = (eq_iff _ _).0 same in
        cc (sym fresh, ap (λ j. find_session j db.sessions) e, held)
    | inr apart ↦ apart
  ]

  -- Rotating a stored active session of the credential never fails, if the id that `new_ulid` draws
  -- is not in the table: the old session is no longer active and points to the new one, the new one is
  -- stored with the expiry and the (non-empty) family of the old, the number of active sessions of the
  -- credential is what it was, and so is every other row.
  pub rotate-Rotated :
      Distinct db.sessions
      → IsStored db.sessions current
      → is_open credential.credential_id current ≡ true
      → find_session (rt.ulid db.drawn) db.sessions ≡ none
      → Returns
          (λ made. Rotated current made.0 credential.credential_id db.sessions made.2.sessions)
          (rotate current credential now caller db)
  unfolding rotate create
  rotate-Rotated d held before fresh =
      let apart = replacement_apart held fresh in
      let found =
        find-current current replacement credential.credential_id now db.sessions apart held in
      record {
        old_links = ap (Option.map (λ r. r.replaced_by_session_id)) found;
        old_closed = ap (Option.map (λ r. is_active r.lifecycle_status)) found;
        new_stored = find-made current replacement credential.credential_id now db.sessions apart;
        same_expiry = refl;
        same_family = λ ne. ground (arith, eq_iff current.family_id "");
        same_number =
            rotate_in-number current replacement credential.credential_id now db.sessions apart held
              d before (ground (arith, eq_refl credential.credential_id));
        others = λ j ne ne'.
            find-past current replacement credential.credential_id now db.sessions apart j ne'
            ∙ find-others current.session_id (mark_rotated replacement.session_id now) j db.sessions
                (λ x. refl) ne;
      }
