-- ===== src/Service/Answers.antt =====
-- Service.cpp: what a service answers to RPC calls.
use xbot_framework.Prelude.{
  ℕ, ◌+◌, ◌≤◌, ◌≡◌, ap, ap₂, sym, subst, ◌∙◌, List, [], ◌∷◌, Option, none, Bool, true, false,
  true≢false, not, ◌&&◌, ◌||◌, ◌==◌, ltb, arith, if◌then◌else◌, if-keeps, ltb→lt, ltb→le, lt→ltb,
  le→ltb, ==_refl,
}
use xbot_framework.Wire.Header.{Header, header_size}
use xbot_framework.Portable.Packet.{max_packet_size}
use xbot_framework.Service.State.{Service, is_claimed, scratch_size}
use xbot_framework.Service.Rpc.{
  RpcStatus, busy, error, is_success, bytes_of, transmit_rpc_response, send_rpc_response,
}
use xbot_framework.Service.User.{Impl}
use xbot_framework.Service.Handlers.{handle_rpc_call}
use xbot_framework.Service.Responses.{
  IsSized, carried, size_of_le, answer, transmit-keeps_rpc, transmit-sent, unexpected, ignored,
  answered,
}

module _ {U : Type 0} where
  -- A second response to a call, whatever its status and data, changes nothing and reports a failure,
  -- whether or not the first one answered the call.
  pub send_rpc_response-send_rpc_response :
      (call_id : ℕ) (status status' : RpcStatus) (content content' : Option (List ℕ))
      (size size' : ℕ) (s : Service U)
      → let s' = (send_rpc_response call_id status content size s).0 in
        send_rpc_response call_id status' content' size' s' ≡ (s', false)
  send_rpc_response-send_rpc_response call_id status status' content content' size size' s =
      ignored call_id status' content' size' (send_rpc_response call_id status content size s).0
        (answered call_id status content size s)

  -- The first response to the expected call ends it and sends exactly one answer to the claimer, with the
  -- call's ID, and the status and the data that it must carry: for data passed with its size, or none with
  -- size 0.
  pub send_rpc_response-sent :
      (call_id : ℕ) (status : RpcStatus) (content : Option (List ℕ)) (size : ℕ) (s : Service U)
      → is_claimed s ≡ true
      → s.rpc_in_progress ≡ true
      → call_id ≡ s.rpc_pending_call_id
      → IsSized content size
      → let s' = (send_rpc_response call_id status content size s).0 in
        let (status', payload) = carried status content size s.rpc_max_response_size in
        (s'.rpc_in_progress ≡ false) × (s'.sent ≡ answer call_id status' payload s ∷ s.sent)
  unfolding send_rpc_response
  send_rpc_response-sent call_id status content size s claimed expects mine sized =
      if-keeps P (unexpected call_id s) (s, false) _ (λ e. absurd (true≢false (sym e ∙ expected)))
        (λ _.
          if-keeps P (is_success status && ltb s.rpc_max_response_size size)
            ((transmit_rpc_response call_id error none 0 cleared).0, false) _
            (λ long. failed (ap (λ (b : Bool). b || ltb scratch_size size) long))
            (λ short.
              if-keeps P (ltb max_packet_size (header_size + size))
                ((transmit_rpc_response call_id error none 0 cleared).0, false) _
                (λ big. failed (
                  ap (λ (b : Bool). b || ltb scratch_size size) short
                  ∙ lt→ltb scratch_size size (omega (arith, ltb→lt _ _ big))))
                (λ fits. passed (ltb→le _ _ fits) (
                  ap (λ (b : Bool). b || ltb scratch_size size) short
                  ∙ le→ltb scratch_size size (omega (arith, ltb→le _ _ fits))))))
    where
      cleared : Service U
      cleared = record s { rpc_in_progress = false }

      Goal : RpcStatus × List ℕ → Service U × Bool → Type 0
      Goal c r = (r.0.rpc_in_progress ≡ false) × (r.0.sent ≡ answer call_id c.0 c.1 s ∷ s.sent)

      P : Service U × Bool → Type 0
      P = Goal (carried status content size s.rpc_max_response_size)

      too_long : Bool
      too_long = is_success status && ltb s.rpc_max_response_size size || ltb scratch_size size

      expected : unexpected call_id s ≡ false
      expected =
          ap₂ (λ (a b : Bool). not a || not b) expects
            (subst (λ (n : ℕ). (call_id == n) ≡ true) mine (==_refl call_id))

      failed : too_long ≡ true → P ((transmit_rpc_response call_id error none 0 cleared).0, false)
      failed e =
          subst
            (λ (c : RpcStatus × List ℕ).
              Goal c ((transmit_rpc_response call_id error none 0 cleared).0, false))
            (sym (ap (λ (b : Bool). if b then (error, []) else (status, bytes_of content size)) e))
            (
              (transmit-keeps_rpc call_id error none 0 cleared).0,
              transmit-sent call_id error none 0 cleared claimed tt (omega arith),
            )

      passed :
          header_size + size ≤ max_packet_size
          → too_long ≡ false
          → P (transmit_rpc_response call_id status content size cleared)
      passed fits e =
          subst
            (λ (c : RpcStatus × List ℕ).
              Goal c (transmit_rpc_response call_id status content size cleared))
            (sym (ap (λ (b : Bool). if b then (error, []) else (status, bytes_of content size)) e))
            (
              (transmit-keeps_rpc call_id status content size cleared).0,
              transmit-sent call_id status content size cleared claimed sized
                  (omega (arith, size_of_le content size)),
            )

  -- A call that arrives while another is in progress is answered with BUSY and its own ID, and the call in
  -- progress stays so.
  pub handle_rpc_call-busy :
      (impl : Impl U) (h : Header) (payload : List ℕ) (s : Service U)
      → is_claimed s ≡ true
      → s.rpc_in_progress ≡ true
      → let s' = handle_rpc_call impl h payload s in
        (s'.rpc_in_progress ≡ true)
        × (s'.rpc_pending_call_id ≡ s.rpc_pending_call_id)
        × (s'.sent ≡ answer h.arg2 busy [] s ∷ s.sent)
  unfolding handle_rpc_call
  handle_rpc_call-busy impl h payload s claimed expects =
      let kept = transmit-keeps_rpc h.arg2 busy none 0 s in
      if-keeps
        (λ (s' : Service U).
          (s'.rpc_in_progress ≡ true)
          × (s'.rpc_pending_call_id ≡ s.rpc_pending_call_id)
          × (s'.sent ≡ answer h.arg2 busy [] s ∷ s.sent))
        s.rpc_in_progress (transmit_rpc_response h.arg2 busy none 0 s).0 _
        (λ _.
          (kept.0 ∙ expects, kept.1, transmit-sent h.arg2 busy none 0 s claimed tt (omega arith)))
        (λ idle. absurd (true≢false (sym expects ∙ idle)))
