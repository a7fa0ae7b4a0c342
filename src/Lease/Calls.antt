-- ===== src/Lease/Calls.antt =====
-- Sequences of calls of the methods of src/development_conveyor/workflow_lease.py that may write.
use development_conveyor.Base.{String, ◌≡◌, List, [], ◌∷◌, string_eq}
use development_conveyor.Json.{Fields}
use development_conveyor.Contracts.{WorkflowType}
use development_conveyor.Lease.Record.{WorkflowLeaseRecord}
use development_conveyor.Lease.Site.{Site}
use development_conveyor.Lease.Writer.{
  System, Process, pid_of, Acquisition, Expectation, write_new, acquire,
}
use development_conveyor.Lease.Methods.{Plan, heartbeat, bind_session, bind_controller_plan}
use development_conveyor.Lease.Adoption.{heartbeat_adopted}
use development_conveyor.Lease.Ending.{release}

-- A call of a method that may write. `finishing` is the exclusive open of an `acquire` whose guards
-- passed on some earlier site.
pub data Call : Type 0 where
  acquiring : Acquisition → Call
  finishing : WorkflowLeaseRecord → Call
  beating : String → WorkflowType → String → String → String → Call
  binding_session : String → WorkflowType → String → String → String → String → Call
  binding_plan : String → String → Plan → String → Call
  beating_adopted : Fields → String → Call
  releasing : Expectation → Call

-- Two processes that a lease tells apart.
abbrev pub Differ : Process → Process → Type 0
Differ p q = (p.host ≡ q.host) → (pid_of p ≡ pid_of q) → ⊥

module _ (system : System) (path : List String) where
  -- The site after a call, whether it returns or raises.
  abbrev pub perform : Process → Call → Site → Site
  perform q (acquiring a) s = (acquire system path q a s).1
  perform q (finishing r) s = (write_new system r s).1
  perform q (beating t w identity project stamp) s =
      (heartbeat system q t w identity project stamp s).1
  perform q (binding_session t w identity project session stamp) s =
      (bind_session system q t w identity project session stamp s).1
  perform q (binding_plan t identity plan stamp) s =
      (bind_controller_plan system q t identity plan stamp s).1
  perform q (beating_adopted expected stamp) s = (heartbeat_adopted system q expected stamp s).1
  perform q (releasing e) s = (release system path q e s).1

  abbrev pub run : List (Process × Call) → Site → Site
  run [] s = s
  run ((q, c) ∷ rest) s = run rest (perform q c s)
