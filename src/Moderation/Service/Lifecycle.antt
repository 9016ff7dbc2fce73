-- ===== src/Moderation/Service/Lifecycle.antt =====
-- The life of a report, over every sequence of requests.
use bikesnest.Prelude.{
  ℕ, ◌≡◌, refl, String, Bool, true, false, not, Option, none, some, List, Result, ok, err, All,
}
use bikesnest.Json.{Json}
use bikesnest.Domain.Codes.ReportTargetType.{ReportTargetType}
use bikesnest.Moderation.Error.{ModerationError}
use bikesnest.Moderation.Report.{
  Report, ReportOutcome, outcome_resolved, outcome_dismissed, resolve, Fault, find, is_user, get,
}
use bikesnest.Moderation.Service.{
  AuthenticatedUser, Ports, ModerationLimits, Faults, Desk, Request, continue, ◌>>=◌, ◌>>◌,
  refuse_unless, on_reports, outside, require_moderator, allowed, audit, submit_report,
  claim_report, hide_resolved_target, hide_if_resolved, resolve_found, resolve_report, is_moderator,
  found,
}
use bikesnest.Moderation.Report.Consistent.{
  IsConsistent, claim-IsConsistent, resolve-IsConsistent, create-IsConsistent,
}

-- Requests that keep the reports consistent, composed.
pub record Keeps (ports : Ports) {A : Type 0} (m : Request ports A) : Type 0 where
  pub keeps : (d : Desk ports) → All IsConsistent d.reports → All IsConsistent (m d).0.reports

module _ (ports : Ports) where
  continue-Keeps :
      {A B : Type 0} (k : A → Request ports B) (w : Desk ports × Result ModerationError A)
      → ((a : A) → Keeps ports (k a))
      → All IsConsistent w.0.reports
      → All IsConsistent (continue ports k w).0.reports
  unfolding continue
  continue-Keeps k (d, ok a) hk h = (hk a).keeps d h
  continue-Keeps k (d, err e) hk h = h

  bind-Keeps :
      {A B : Type 0} {m : Request ports A} {k : A → Request ports B}
      → Keeps ports m
      → ((a : A) → Keeps ports (k a))
      → Keeps ports (◌>>=◌ ports m k)
  unfolding ◌>>=◌
  bind-Keeps {m} {k} hm hk = record { keeps = λ d h. continue-Keeps k (m d) hk (hm.keeps d h) }

  refuse-Keeps : (b : Bool) (e : ModerationError) → Keeps ports (refuse_unless ports b e)
  unfolding refuse_unless
  refuse-Keeps true e = record { keeps = λ d h. h }
  refuse-Keeps false e = record { keeps = λ d h. h }

  audit-Keeps :
      (b : Bool) (u : ℕ) (action : String) (id : ℕ) (m : Json)
      → Keeps ports (audit ports b u action id m)
  unfolding audit
  audit-Keeps true u action id m = record { keeps = λ d h. h }
  audit-Keeps false u action id m = record { keeps = λ d h. h }

  plain-Keeps :
      {A : Type 0} (r : Desk ports → Result ModerationError A) → Keeps ports (λ d. (d, r d))
  plain-Keeps r = record { keeps = λ d h. h }

  outside-Keeps : {A : Type 0} (op : _) → Keeps ports (outside ports {A = A} op)
  unfolding outside
  outside-Keeps op = record { keeps = λ d h. h }

  on_reports-Keeps :
      {A : Type 0} (op : List Report → List Report × Result ModerationError A)
      → ((t : List Report) → All IsConsistent t → All IsConsistent (op t).0)
      → Keeps ports (on_reports ports op)
  unfolding on_reports
  on_reports-Keeps op h = record { keeps = λ d k. h d.reports k }

  -- A check, and a query, before what depends on their answers.
  refuse-then :
      {B : Type 0} (b : Bool) (e : ModerationError) (rest : Request ports B) (d : Desk ports)
      → (b ≡ true → All IsConsistent (rest d).0.reports)
      → All IsConsistent d.reports
      → All IsConsistent (◌>>◌ ports (refuse_unless ports b e) rest d).0.reports
  unfolding refuse_unless ◌>>=◌ continue
  refuse-then true e rest d k h = k refl
  refuse-then false e rest d k h = h

  query-then :
      {A B : Type 0} (r : Desk ports → Result ModerationError A) (k : A → Request ports B)
      (d : Desk ports)
      → ((a : A) → r d ≡ ok a → All IsConsistent (k a d).0.reports)
      → All IsConsistent d.reports
      → All IsConsistent (◌>>=◌ ports (λ d. (d, r d)) k d).0.reports
  unfolding ◌>>=◌
  query-then {A = A} r k d rest h = answered (r d) refl
    where
      answered :
          (x : Result ModerationError A)
          → r d ≡ x
          → All IsConsistent (continue ports k (d, x)).0.reports
      answered (ok a) e = unfold continue in rest a e
      answered (err x) e = unfold continue in h

  module _ (limits : ModerationLimits) (f : Faults) (now : ℕ) where
    pub claim_report-Keeps :
        (u : AuthenticatedUser) (id : ℕ) → Keeps ports (claim_report ports limits f now u id)
    unfolding claim_report require_moderator
    claim_report-Keeps u id = bind-Keeps (refuse-Keeps _ _) (λ _.
        bind-Keeps (on_reports-Keeps _ (λ t. claim-IsConsistent f.on_write now t id u.id))
          (λ _. audit-Keeps _ _ _ _ _))

    pub submit_report-Keeps :
        (u : AuthenticatedUser) (ip : String) (new_id : ℕ) (target : ReportTargetType)
        (target_id : ℕ) (reason : String) (description : Option String)
        → Keeps ports
            (submit_report ports limits f now u ip new_id target target_id reason description)
    unfolding submit_report allowed
    submit_report-Keeps u ip new_id target target_id reason description =
        bind-Keeps (outside-Keeps _) (λ _. bind-Keeps (outside-Keeps _) (λ _.
          bind-Keeps (refuse-Keeps _ _) (λ _. bind-Keeps (refuse-Keeps _ _) (λ text.
            bind-Keeps (plain-Keeps _) (λ text. bind-Keeps (plain-Keeps _) (λ there.
              bind-Keeps (refuse-Keeps _ _) (λ _.
                bind-Keeps (on_reports-Keeps _ (λ t. create-IsConsistent f.on_write now t _ new_id))
                  (λ _. bind-Keeps (audit-Keeps _ _ _ _ _) (λ _. plain-Keeps _)))))))))

    hide-Keeps :
        (o : ReportOutcome) (r : Report) (m : ℕ)
        → Keeps ports (hide_if_resolved ports limits f now o r m)
    unfolding hide_if_resolved hide_resolved_target
    hide-Keeps outcome_resolved r m = outside-Keeps _
    hide-Keeps outcome_dismissed r m = plain-Keeps _

    resolve_found-Keeps :
        (u : AuthenticatedUser) (id : ℕ) (outcome : ReportOutcome) (note : String) (r : Report)
        (d : Desk ports)
        → find id d.reports ≡ some r
        → All IsConsistent d.reports
        → All IsConsistent (resolve_found ports limits f now u id outcome note r d).0.reports
    unfolding resolve_found
    resolve_found-Keeps u id outcome note r d e h =
        refuse-then (not (is_user r.reporter_id u.id)) _ _ d
          (λ other.
            unfold ◌>>=◌ on_reports in
            continue-Keeps _
              (on_reports ports (λ t. resolve f.on_write now t id u.id note outcome) d)
              (λ _. bind-Keeps (hide-Keeps outcome r u.id) (λ _. audit-Keeps _ _ _ _ _))
              (resolve-IsConsistent f.on_write now d.reports id u.id note outcome r e
                (opposite (is_user r.reporter_id u.id) other) h))
          h
      where
        opposite : (b : Bool) → not b ≡ true → b ≡ false
        opposite true k = cc
        opposite false k = refl

    found_row :
        (g : Fault) (id : ℕ) (t : List Report) (answer : Option Report) (r : Report)
        → get g now t id ≡ ok answer
        → found ports limits f now answer ≡ ok r
        → find id t ≡ some r
    unfolding get
    found_row (some x) id t answer r e k = cc
    found_row none id t none r e k = cc
    found_row none id t (some x) r e k = cc

    pub resolve_report-Keeps :
        (u : AuthenticatedUser) (id : ℕ) (outcome : ReportOutcome) (note : String)
        → Keeps ports (resolve_report ports limits f now u id outcome note)
    unfolding resolve_report require_moderator
    resolve_report-Keeps u id outcome note = record {
      keeps = λ d h.
          refuse-then (is_moderator u) _ _ d
            (λ _.
              query-then (λ d. get f.on_get now d.reports id) _ d
                (λ answer e.
                  query-then (λ _. found ports limits f now answer) _ d
                    (λ r k.
                      resolve_found-Keeps u id outcome note r d
                        (found_row f.on_get id d.reports answer r e k) h)
                    h)
                h)
            h;
    }
