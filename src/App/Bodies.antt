-- ===== src/App/Bodies.antt =====
-- `get_next_vm_block` of the two applications in hotstuff/hotstuff.h, over their bridges.
use hotstuff.Prelude.{ℕ, Bool, List, not, if◌then◌else◌, Result, ok, ◌>>=◌}
use hotstuff.Vm.{Machine}
use hotstuff.Vm.Bridge.{Bridge, make_empty_proposal, get_and_apply_next_proposal}
use hotstuff.Vm.Nonspeculative.{PlainBridge, get_next_proposal}
use hotstuff.Vm.Nonspeculative

-- The fuel bounds the rounds of the machine's thread that the call waits for.
unfoldable pub speculative_body :
    {S V : Type 0} → Machine S V → ℕ → Bridge S V → Bool → ℕ → Result (Bridge S V × List ℕ)
unfolding make_empty_proposal get_and_apply_next_proposal
speculative_body m fuel b nonempty_proposal hotstuff_height =
    if not nonempty_proposal
    then make_empty_proposal b hotstuff_height
    else get_and_apply_next_proposal m fuel b hotstuff_height

unfoldable pub plain_body :
    {S : Type 0} → PlainBridge S → Bool → ℕ → Result (PlainBridge S × List ℕ)
unfolding get_next_proposal Nonspeculative.make_empty_proposal
plain_body b nonempty_proposal hotstuff_height =
    let nothing : Result (PlainBridge _ × List ℕ) = (do
      body ← Nonspeculative.make_empty_proposal b hotstuff_height
      ok (b, body)) in
    if not nonempty_proposal then nothing else get_next_proposal b
