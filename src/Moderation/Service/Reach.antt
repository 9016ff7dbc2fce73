-- ===== src/Moderation/Service/Reach.antt =====
-- Every desk that requests lead to: any requests of any users in any order, with any faults.
use bikesnest.Prelude.{ℕ, String, Option, List, [], All}
use bikesnest.Domain.Codes.ReportTargetType.{ReportTargetType}
use bikesnest.Moderation.Report.{ReportOutcome}
use bikesnest.Moderation.Report.Consistent.{IsConsistent}
use bikesnest.Moderation.Service.{
  AuthenticatedUser, AuditEvent, Ports, ModerationLimits, Faults, Desk, submit_report, claim_report,
  resolve_report,
}
use bikesnest.Moderation.Service.Lifecycle.{
  submit_report-Keeps, claim_report-Keeps, resolve_report-Keeps,
}

module _ (ports : Ports) (limits : ModerationLimits) where
  open ports use {World}

  pub data Step : Desk ports → Desk ports → Type 0 where
    submits :
        (d : Desk ports) (f : Faults) (now : ℕ) (u : AuthenticatedUser) (ip : String) (new_id : ℕ)
        (target : ReportTargetType) (target_id : ℕ) (reason : String) (description : Option String)
        → Step d
            (submit_report ports limits f now u ip new_id target target_id reason description d).0
    claims :
        (d : Desk ports) (f : Faults) (now : ℕ) (u : AuthenticatedUser) (id : ℕ)
        → Step d (claim_report ports limits f now u id d).0
    resolves :
        (d : Desk ports) (f : Faults) (now : ℕ) (u : AuthenticatedUser) (id : ℕ)
        (outcome : ReportOutcome) (note : String)
        → Step d (resolve_report ports limits f now u id outcome note d).0
    elsewhere : (d : Desk ports) (w : World) → Step d (record d { world = w })

  pub data Reachable : Desk ports → Type 0 where
    start :
        (log : List AuditEvent) (w : World)
        → Reachable (record { reports = []; audit_log = log; world = w })
    next : (d e : Desk ports) → Reachable d → Step d e → Reachable e

  Step-Keeps :
      (d e : Desk ports) → Step d e → All IsConsistent d.reports → All IsConsistent e.reports
  Step-Keeps _ _ (submits d f now u ip new_id target target_id reason description) h =
      (submit_report-Keeps ports limits f now u ip new_id target target_id reason description).keeps
        d h
  Step-Keeps _ _ (claims d f now u id) h = (claim_report-Keeps ports limits f now u id).keeps d h
  Step-Keeps _ _ (resolves d f now u id outcome note) h =
      (resolve_report-Keeps ports limits f now u id outcome note).keeps d h
  Step-Keeps _ _ (elsewhere d w) h = h

  -- Whatever requests have been made, by whom, in which order and with which failures, each report is
  -- in a consistent state: nobody has acted on an open one, one under review has been claimed and not
  -- decided, and a resolved or dismissed one was claimed and then decided by somebody other than its
  -- reporter.
  pub Reachable-IsConsistent : (d : Desk ports) → Reachable d → All IsConsistent d.reports
  Reachable-IsConsistent _ (start log w) = tt
  Reachable-IsConsistent _ (next d e reached step) =
      Step-Keeps d e step (Reachable-IsConsistent d reached)
