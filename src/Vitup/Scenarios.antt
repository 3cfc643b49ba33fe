-- ===== src/Vitup/Scenarios.antt =====
-- The theorems on vitup, each applied to a small input.
mod Admin
mod Files
mod Setup
use vit_testing.Prelude.{ℕ, ◌+◌, ◌≡◌, String, List, [], ◌∷◌, none, true, false, length, All, arith}
use vit_testing.Mock.Run.{returns}
use vit_testing.Vitup.Manager.{
  starting, ControlContext, building, System, Reach, here, followed_by, boot, new, serve_start,
  work_poll, work_setup, work_clear, work_starting, start_handler, poll, or_failed, clear_requests,
  set_state,
}
use vit_testing.Vitup.Manager.Sync.{state_of, boot-state_of, boot-IsStarting}
use vit_testing.Vitup.Initials.{
  Initial, above_threshold, below_threshold, zero_funds, wallet, external, Template, Rng, templates,
  count,
}
use vit_testing.Vitup.Initials.Templates.{
  DrawsInRange, IsInRange, total, above_of, below_of, named_of, zero_of, templates-IsInRange,
}

-- A generator that draws the least number.
abbrev least : Rng
least = record { Seed = ℕ; gen_range = λ lo hi seed. (lo, seed + 1) }

least_draws : DrawsInRange least
least_draws lo hi seed h = (omega arith, h)

abbrev initials : List Initial
initials =
    above_threshold 2 "1234"
    ∷ zero_funds 5 "0000"
    ∷ below_threshold 1 "1111"
    ∷ wallet "alice" 1000 "2222"
    ∷ external "addr" 7
    ∷ []

templates-IsInRange_example :
    (ts : List Template) × (templates least 500 1 initials ≡ returns ts)
    × (count initials ≡ returns (length ts + total zero_of initials))
    × All (IsInRange 500) ts
unfolding total above_of below_of named_of zero_of
templates-IsInRange_example =
    templates-IsInRange least 1 500 initials least_draws (omega arith) (omega arith) (omega arith)
      (omega arith) (omega arith)

abbrev context : ControlContext String ℕ
context = new "data" "default" none

abbrev coming_up : System String ℕ
coming_up = record {
  context = record context { setup = "late"; state = starting };
  phase = building "early";
}

-- Of two custom starts the second comes in after the loop has read the parameters, and before it
-- clears the requests: the backend comes up with the first parameters, and the second start is lost.
coming_up_reached : Reach (boot "data" "default" none) coming_up
unfolding boot new start_handler poll or_failed clear_requests set_state
coming_up_reached =
    followed_by
      (followed_by
        (followed_by
          (followed_by (followed_by (followed_by here (serve_start "early" _ _)) (work_poll _))
            (work_setup true _))
          (serve_start "late" _ _))
        (work_clear "early" _))
      (work_starting "early" _)

boot-state_of_example : coming_up.context.state ≡ state_of coming_up.phase
boot-state_of_example = boot-state_of "data" "default" none coming_up coming_up_reached (λ e. cc)

boot-IsStarting_example : coming_up.context.should_stop ≡ false
boot-IsStarting_example = boot-IsStarting "data" "default" none coming_up coming_up_reached tt
