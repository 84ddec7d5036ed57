-- ===== src/Template/Machine.antt =====
-- The `run` of a template as a run of the machine of SchedulerJob/Machine.
use blockchain_task_server.Common.{String, List, refl, sym, inl, inr}
use blockchain_task_server.Effects.Rules.{IsPreorder}
use blockchain_task_server.Platform.{Platform, IsLawful, Write, apply_all}
use blockchain_task_server.SchedulerJob.Machine.{Reaches, Reaches-trans, stays, performs}
use blockchain_task_server.Template.{Local}
use blockchain_task_server.Template.Atomic.{Moved}

module _ {W S T : Type 0} (p : Platform W S T) (lawful : IsLawful p) (id : String)
    (IsUnit : List (Write W) → Type 0) where
  -- A unit of work, or none, is a run of the machine.
  pub Moved-Reaches : (a b : T) → Moved p lawful IsUnit a b → Reaches p lawful id IsUnit a b
  Moved-Reaches a b (inl e) = stays a b (sym e)
  Moved-Reaches a b (inr (ws, u, e)) = performs a b ws u (stays (apply_all p.effect ws a) b (sym e))

  module _ {D : Type 0} where
    abbrev pub LocalSteps : Local S D → Local S D → Type 0
    LocalSteps l m = Reaches p lawful id IsUnit (p.committed l.env) (p.committed m.env)

    pub LocalSteps-IsPreorder : IsPreorder LocalSteps
    LocalSteps-IsPreorder = record {
      same = λ l. stays _ _ refl;
      chain = λ l m n h k.
          Reaches-trans p lawful id IsUnit (p.committed l.env) (p.committed m.env)
            (p.committed n.env) h k;
    }
