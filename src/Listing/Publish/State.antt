-- ===== src/Listing/Publish/State.antt =====
-- Taking a listing down and restoring it, and rejecting a proposal
-- (`set_parking_state`, `reject_proposal`, crates/infrastructure/src/moderation/actions.rs).
use mathlib.Core.Path.{subst}
use bikesnest.Prelude.{
  ℕ, suc, ◌≡◌, refl, ap, sym, ◌∙◌, String, Bool, true, false, ◌&&◌, none, some, ◌∷◌, ok, err, ◌==◌,
  if◌then◌else◌, All, Bool-cases, Option-cases, inl, inr, ==_iff,
}
use bikesnest.Domain.Codes.ModerationState.{ModerationState}
use bikesnest.Domain.ParkingEdit.{TimeText}
use bikesnest.Moderation.Error.{invalid_state}
use bikesnest.Listing.{Location, Revision, Tables, is_pending, ok_inj, err_not_ok}
use bikesnest.Listing.Rows.{
  find, update_where, updated, find_passes, find_narrow, find-none, some_inj, All-map,
  All-update_where,
}
use bikesnest.Listing.Publish.{
  has_location, insert_revision, supersede, revision_of, with_state, is_from, set_parking_state,
  reject_proposal, rejected_by,
}
use bikesnest.Listing.Publish.Sound.{IsSound, IsSound_by, row_of_id, found_by_id, next_version-free}
use bikesnest.Listing.Publish.Sound.Written.{
  HasUniqueIds-written, All-Recorded-written, All-Backed-written, find-written,
}
use bikesnest.Listing.Publish.Effect.{IsElsewhere, retired-IsElsewhere}

true_not_false : true ≡ false → ⊥
true_not_false e = cc

module _ (times : TimeText) (now id moderator : ℕ) (from : ModerationState → Bool)
    (to : ModerationState) (t : Tables) where
  abbrev target : Location → Bool
  target = is_from times now id from

  abbrev set : Location → Location
  set = with_state times now to

  -- The tables after the change of a listing's state.
  abbrev pub with_written : Tables
  with_written = record t { locations = update_where target set t.locations }

  abbrev pub state_revision : Location → Revision
  state_revision l = revision_of times with_written (set l) moderator "moderated"

  abbrev pub restated : Location → Tables
  restated l = record with_written {
    revisions = state_revision l ∷ t.revisions;
    proposals = supersede l.id none t.proposals;
  }

  target-narrow : (l : Location) → target l ≡ true → has_location id l ≡ true
  target-narrow l h = first (has_location id l) (from l.moderation_state) h
    where
      first : (x y : Bool) → x && y ≡ true → x ≡ true
      first true y e = refl
      first false y e = e

  hits :
      (l : Location)
      → find (has_location id) t.locations ≡ some l
      → from l.moderation_state ≡ true
      → target l ≡ true
  hits l found state = rw (find_passes (has_location id) t.locations l found, state) refl

  goes :
      (l : Location)
      → IsSound t
      → find (has_location id) t.locations ≡ some l
      → from l.moderation_state ≡ true
      → set_parking_state times now id from to moderator t ≡ ok (restated l)
  unfolding set_parking_state updated insert_revision
  goes l sound found state =
      rw
        (
          find_narrow (has_location id) target t.locations l found (hits l found state)
              target-narrow,
          next_version-free t.locations t.revisions l (found_by_id t.locations id l found)
              sound.recorded,
        )
        refl

  refused :
      (found : find target t.locations ≡ none)
      → set_parking_state times now id from to moderator t ≡ err invalid_state
  unfolding set_parking_state updated
  refused found = rw found refl

  nothing :
      (l : Location)
      → IsSound t
      → find (has_location id) t.locations ≡ some l
      → from l.moderation_state ≡ false
      → find target t.locations ≡ none
  nothing l sound found other = elim (Option-cases (find target t.locations)) [
    | inl e ↦ e
    | inr (m, e) ↦
        let hit : target m ≡ true = find_passes target t.locations m e in
        let here : m.id ≡ id = (==_iff m.id id).0 (target-narrow m hit) in
        let same : m ≡ l = some_inj (
          sym (row_of_id t.locations target m sound.unique e)
          ∙ ap (λ k. find (has_location k) t.locations) here
          ∙ found) in
        absurd (
          true_not_false (
            sym (second (has_location id m) (from m.moderation_state) hit)
            ∙ ap (λ k. from (Location.moderation_state k)) same
            ∙ other))
  ]
    where
      second : (x y : Bool) → x && y ≡ true → y ≡ true
      second true y e = e
      second false y e = cc

  restated-IsSound :
      (l : Location)
      → IsSound t
      → find (has_location id) t.locations ≡ some l
      → from l.moderation_state ≡ true
      → IsSound (restated l)
  restated-IsSound l sound found state =
      let hit = hits l found state in
      let here : l.id ≡ id =
        (==_iff l.id id).0 (find_passes (has_location id) t.locations l found) in
      let new = state_revision l in
      IsSound_by (restated l) (update_where target set t.locations) (new ∷ t.revisions)
        (supersede l.id none t.proposals) refl refl refl
        (HasUniqueIds-written set (λ m. refl) (λ m. refl) target id target-narrow t.locations
          t.locations sound.unique)
        (All-Backed-written set (λ m. refl) (λ m. refl) target id target-narrow t.locations l found
          hit new here refl _
          (subst (λ k. All (IsElsewhere t.locations k) (supersede l.id none t.proposals)) here
            (retired-IsElsewhere t.locations l.id t.proposals sound.pending)))
        (All-Recorded-written set (λ m. refl) (λ m. refl) target id target-narrow t.locations l
          found hit new here refl t.revisions sound.recorded)

  -- A change of state, where the tables are sound, goes through exactly where the listing is in one of
  -- the states that it starts from, and is refused otherwise.
  pub set_parking_state-decides :
      (l : Location)
      → IsSound t
      → find (has_location id) t.locations ≡ some l
      → set_parking_state times now id from to moderator t
        ≡ (if from l.moderation_state then ok (restated l) else err invalid_state)
  set_parking_state-decides l sound found = elim (Bool-cases (from l.moderation_state)) [
    | inl state ↦ rw state (goes l sound found state)
    | inr other ↦ rw other (refused (nothing l sound found other))
  ]

  -- What the tables are after a change of state that went through.
  pub record IsRestated (l : Location) (after : Tables) : Type 0 where
    pub was_from : from l.moderation_state ≡ true
    pub listing :
        find (has_location id) after.locations
        ≡ some record l { moderation_state = to; version = suc l.version; updated_at = now }
    pub revision :
        (r : Revision) × (after.revisions ≡ r ∷ t.revisions)
        × (r.version ≡ suc l.version)
        × (r.editor_id ≡ some moderator)
    pub none_waits :
        All (λ q. is_pending q.status ≡ true → ((q.location_id == l.id) ≡ false)) after.proposals
    pub sound : IsSound after

  restated-IsRestated :
      (l : Location)
      → IsSound t
      → find (has_location id) t.locations ≡ some l
      → from l.moderation_state ≡ true
      → IsRestated l (restated l)
  restated-IsRestated l sound found state = record {
    was_from = state;
    listing =
        find-written set (λ m. refl) (λ m. refl) target id target-narrow t.locations id l found
        ∙ ap (λ b. some (if b then set l else l)) (hits l found state);
    revision = (state_revision l, refl, refl, refl);
    none_waits =
        All-map _ (λ q k waits. (k waits).0)
          (retired-IsElsewhere t.locations l.id t.proposals sound.pending);
    sound = restated-IsSound l sound found state;
  }

  -- Taking a listing down or restoring it, where it goes through on sound tables, starts from one of the
  -- states that it asks for, puts the listing in the state that is asked for with its next version and
  -- no other change but its time, records one revision, of that version and by that moderator, leaves
  -- no proposal of the listing pending, and leaves the tables sound.
  pub set_parking_state-IsRestated :
      (l : Location) (after : Tables)
      → IsSound t
      → find (has_location id) t.locations ≡ some l
      → set_parking_state times now id from to moderator t ≡ ok after
      → IsRestated l after
  set_parking_state-IsRestated l after sound found e = elim (Bool-cases (from l.moderation_state)) [
    | inl state ↦
        subst (IsRestated l) (ok_inj (sym (goes l sound found state) ∙ e))
          (restated-IsRestated l sound found state)
    | inr other ↦ err_not_ok (sym (refused (nothing l sound found other)) ∙ e)
  ]

  pub set_parking_state-IsSound :
      (after : Tables)
      → IsSound t
      → set_parking_state times now id from to moderator t ≡ ok after
      → IsSound after
  set_parking_state-IsSound after sound e =
      elim (Option-cases (find (has_location id) t.locations)) [
        | inl gone ↦
            err_not_ok (
              sym (refused (find-none (has_location id) target t.locations gone target-narrow)) ∙ e)
        | inr (l, found) ↦ IsRestated.sound (set_parking_state-IsRestated l after sound found e)
      ]

-- A rejection keeps the tables sound, whether or not it finds the proposal pending.
pub reject_proposal-IsSound :
    (times : TimeText) (now id moderator : ℕ) (reason : String) (t : Tables)
    → IsSound t
    → IsSound (reject_proposal times now id moderator reason t).0
unfolding reject_proposal rejected_by
reject_proposal-IsSound times now id moderator reason t sound = record {
  unique = sound.unique;
  pending =
      All-update_where _ _ t.proposals (λ p k hit waits. cc) (λ p k out waits. k waits)
        sound.pending;
  recorded = sound.recorded;
}
