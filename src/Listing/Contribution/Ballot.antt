-- ===== src/Listing/Contribution/Ballot.antt =====
-- The votes as a map from a proposal and a voter to a side: the table and its upsert
-- (`vote_on_proposal`, crates/infrastructure/src/community/contribution.rs) implement it.
use mathlib.Core.Option
use bikesnest.Prelude.{
  ℕ, ◌≡◌, refl, ap, sym, ◌∙◌, Bool, true, false, ◌&&◌, Option, none, some, List, [], ◌∷◌, ◌++◌, any,
  ◌==◌, if◌then◌else◌, Bool-cases, inl, inr, arith,
}
use bikesnest.Listing.{ProposalVote, Vote}
use bikesnest.Listing.Rows.{find, update_where, find-update_where, find_passes, some_not_none}
use bikesnest.Listing.Contribution.{is_vote, cast}

-- The map: what a voter has said of a proposal, and saying something else.
abbrev pub Ballot : Type 0
Ballot = ℕ → ℕ → Option ProposalVote

abbrev pub say : ℕ → ℕ → ProposalVote → Ballot → Ballot
say proposal voter side b p v = if (p == proposal) && (v == voter) then some side else b p v

-- The map that a table stands for.
unfoldable pub ballot_of : List Vote → Ballot
unfolding find
ballot_of votes p v = Option.map Vote.vote (find (is_vote p v) votes)

found_of_any :
    (p v : ℕ) (votes : List Vote)
    → any (is_vote p v) votes ≡ true
    → (r : Vote) × (find (is_vote p v) votes ≡ some r)
unfolding find
found_of_any p v [] h = cc
found_of_any p v (r ∷ votes) h = elim (Bool-cases (is_vote p v r)) [
  | inl e ↦ (r, rw e refl)
  | inr e ↦ let (s, f) = found_of_any p v votes (rw e at h) in (s, rw e f)
]

none_of_any :
    (p v : ℕ) (votes : List Vote)
    → any (is_vote p v) votes ≡ false
    → find (is_vote p v) votes ≡ none
unfolding find
none_of_any p v [] h = refl
none_of_any p v (r ∷ votes) h = elim (Bool-cases (is_vote p v r)) [
  | inl e ↦ absurd (cc (rw e at h))
  | inr e ↦ rw e (none_of_any p v votes (rw e at h))
]

-- The pairs of a row and of a test are one pair.
same_pair :
    (p v proposal voter : ℕ) (r : Vote)
    → is_vote p v r ≡ true
    → is_vote proposal voter r ≡ ((p == proposal) && (v == voter))
same_pair p v proposal voter r h = ground arith

find-append :
    (q : Vote → Bool) (votes : List Vote) (y : Vote)
    → find q (votes ++ (y ∷ []))
      ≡ elim (find q votes) [ some r ↦ some r | none ↦ if q y then some y else none ]
unfolding find
find-append q [] y = refl
find-append q (r ∷ votes) y = elim (Bool-cases (q r)) [
  | inl e ↦ rw e refl
  | inr e ↦ rw e (find-append q votes y)
]

pair_of :
    (p v proposal voter : ℕ)
    → (p == proposal) && (v == voter) ≡ true
    → (let a : ℕ × ℕ = (p, v) in a ≡ (proposal, voter))
pair_of p v proposal voter same = ground (arith, same)

kept_votes :
    (p v proposal voter : ℕ) (side : ProposalVote) (votes : List Vote)
    → any (is_vote proposal voter) votes ≡ true
    → ballot_of (update_where (is_vote proposal voter) (λ r. record r { vote = side }) votes) p v
      ≡ say proposal voter side (ballot_of votes) p v
unfolding ballot_of
kept_votes p v proposal voter side votes h =
    rw
      (find-update_where (is_vote p v) (is_vote proposal voter) (λ r. record r { vote = side })
        votes (λ r. refl))
      (go (find (is_vote p v) votes) refl)
  where
    go :
        (o : Option Vote)
        → find (is_vote p v) votes ≡ o
        → Option.map Vote.vote
            (Option.map (λ r. if is_vote proposal voter r then record r { vote = side } else r) o)
          ≡ (if (p == proposal) && (v == voter) then some side else Option.map Vote.vote o)
    go none e = elim (Bool-cases ((p == proposal) && (v == voter))) [
      | inl here ↦
          let (r, f) = found_of_any proposal voter votes h in
          some_not_none (
            sym f
            ∙ (ap (λ x. find (is_vote x.0 x.1) votes) (sym (pair_of p v proposal voter here)) ∙ e))
      | inr there ↦ rw there refl
    ]
    go (some r) e =
        let pair = same_pair p v proposal voter r (find_passes (is_vote p v) votes r e) in
        elim (Bool-cases ((p == proposal) && (v == voter))) [
          | inl here ↦ rw (pair, here) refl
          | inr there ↦ rw (pair, there) refl
        ]

swapped :
    (p v proposal voter : ℕ) → (proposal == p) && (voter == v) ≡ ((p == proposal) && (v == voter))
swapped p v proposal voter = ground arith

new_vote :
    (p v proposal voter : ℕ) (side : ProposalVote) (votes : List Vote)
    → any (is_vote proposal voter) votes ≡ false
    → ballot_of
        (votes ++ (record { proposal_id = proposal; voter_id = voter; vote = side } ∷ []))
        p
        v
      ≡ say proposal voter side (ballot_of votes) p v
unfolding ballot_of
new_vote p v proposal voter side votes h =
    rw
      (find-append (is_vote p v) votes
        record { proposal_id = proposal; voter_id = voter; vote = side })
      (go (find (is_vote p v) votes) refl)
  where
    go :
        (o : Option Vote)
        → find (is_vote p v) votes ≡ o
        → Option.map Vote.vote (elim o [
          | some r ↦ some r
          | none ↦
              if (proposal == p) && (voter == v)
              then some record { proposal_id = proposal; voter_id = voter; vote = side }
              else none
        ])
          ≡ (if (p == proposal) && (v == voter) then some side else Option.map Vote.vote o)
    go none e = elim (Bool-cases ((p == proposal) && (v == voter))) [
      | inl here ↦ rw (swapped p v proposal voter, here) refl
      | inr there ↦ rw (swapped p v proposal voter, there) refl
    ]
    go (some r) e = elim (Bool-cases ((p == proposal) && (v == voter))) [
      | inl here ↦ some_not_none (
          sym e
          ∙ (ap (λ x. find (is_vote x.0 x.1) votes) (pair_of p v proposal voter here)
              ∙ none_of_any proposal voter votes h))
      | inr there ↦ rw there refl
    ]

-- Casting a vote is saying it: the table stands for the map in which the voter has said that side of
-- that proposal, and every other voter's word, and this voter's on every other proposal, is as it was.
pub cast-say :
    (proposal voter : ℕ) (side : ProposalVote) (votes : List Vote) (p v : ℕ)
    → ballot_of (cast proposal voter side votes) p v ≡ say proposal voter side (ballot_of votes) p v
unfolding cast
cast-say proposal voter side votes p v = elim (Bool-cases (any (is_vote proposal voter) votes)) [
  | inl h ↦ rw h (kept_votes p v proposal voter side votes h)
  | inr h ↦ rw h (new_vote p v proposal voter side votes h)
]
