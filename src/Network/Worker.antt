-- ===== src/Network/Worker.antt =====
-- hotstuff/block_storage/block_fetch_worker.cc and block_fetch_server.cc: a request for blocks and
-- the answer to it. The outcome of the remote call is an argument: `none` if it failed.
use hotstuff.Prelude.{
  ℕ, ◌+◌, Option, none, some, List, [], ◌∷◌, not, if◌then◌else◌, Result, ok, ◌>>=◌,
}
use hotstuff.Foreign.{Foreign}
use hotstuff.Wire.{HotstuffBlockWire, BlockFetchRequest, BlockFetchResponse}
use hotstuff.Block.{Ptr, Heap, write, receive_block, validate_hash}
use hotstuff.Storage.Store.{Store, get_block}
use hotstuff.Network.Events.{receive_net_event}
use hotstuff.Network.Fetch.{FetchQueue, insert_req}
use hotstuff.Network.Queue.{Net, validate_and_add_event}

unfoldable pub extract_reqs : FetchQueue → FetchQueue × BlockFetchRequest
extract_reqs q = (record q { worker_reqs = [] }, record { reqs = q.worker_reqs })

unfoldable pub insert_reqs : List ℕ → List ℕ → List ℕ
unfolding insert_req
insert_reqs [] reqs = reqs
insert_reqs (hash ∷ hashes) reqs = insert_reqs hashes (insert_req hash reqs)

unfoldable pub readd_request : FetchQueue → BlockFetchRequest → FetchQueue
unfolding insert_reqs
readd_request q req = record q { worker_reqs = insert_reqs req.reqs q.worker_reqs }

module _ ⦃f : Foreign⦄ where
  -- The block of one response, put at the new address `p`; its hash is checked ahead of time.
  unfoldable pub received_at : Heap → Ptr → HotstuffBlockWire → ℕ → Heap
  unfolding write receive_block validate_hash
  received_at h p response from = write h p (validate_hash (receive_block response from)).0

  -- The loop over the responses, whose blocks go to the addresses from `p` on.
  unfoldable pub receive_responses : Net → Ptr → List HotstuffBlockWire → ℕ → Result Net
  unfolding received_at validate_and_add_event
  receive_responses n p [] from = ok n
  receive_responses n p (response ∷ responses) from = do
    n' ←
        validate_and_add_event (record n { heap = received_at n.heap p response from })
          (receive_net_event p from)
    receive_responses n' (p + 1) responses from

  -- A round of `run`, from where the request is taken.
  unfoldable pub run_fetch :
      FetchQueue → Net → Ptr → ℕ → Option BlockFetchResponse → Result (FetchQueue × Net)
  unfolding extract_reqs readd_request receive_responses
  run_fetch q n p from outcome =
      let (q', req) = extract_reqs q in
      elim outcome [
        | none ↦ ok (readd_request q' req, n)
        | some res ↦ (do n' ← receive_responses n p res.responses from; ok (q', n'))
      ]

-- `BlockFetchHandler::fetch`: the blocks that are cached and still have their bodies.
unfoldable pub respond : Heap → Store → List ℕ → List HotstuffBlockWire
unfolding get_block
respond h s [] = []
respond h s (hash ∷ hashes) =
    let rest = respond h s hashes in
    elim (get_block s hash) [
      | none ↦ rest
      | some blk ↦ if not (h blk).flushed then (h blk).wire ∷ rest else rest
    ]

unfoldable pub fetch_blocks : Heap → Store → BlockFetchRequest → BlockFetchResponse
unfolding respond
fetch_blocks h s req = record { responses = respond h s req.reqs }
