-- ===== src/Template/Registers/Incomplete.antt =====
-- A configuration transaction that leaves a mandatory register out.
use xbot_framework.Prelude.{
  ℕ, ◌%◌, ◌<◌, ◌≡◌, ◌≢◌, refl, ap, sym, subst, ◌∙◌, List, [], ◌∷◌, Option, Bool, true, false,
  true≢false, not, ◌&&◌, ◌||◌, ◌==◌, ltb, arith, if-keeps, Bool-cases, inl, inr, ==_iff, suc,
  length, All, u32_mod, size_mod,
}
use xbot_framework.Wire.Bytes.{IsBytes}
use xbot_framework.Wire.Frames.{
  Frame, IsEncodable, encode_frames, feed, walk, Outcome, encode_frames-IsBytes,
}
use xbot_framework.Wire.Frames.RoundTrip.{walk_whole, ended_at}
use xbot_framework.Service.State.{Service}
use xbot_framework.Service.User.{Prog, done, call, Method, exec, run_prog, run_method}
use xbot_framework.Service.Lifecycle.{
  load_configuration_defaults, stop_if_running, stop_service, start_service, clear_rpc,
  on_lifecycle_status_changed,
}
use xbot_framework.Service.Handlers.{
  handle_configuration_transaction, set_registers, set_one_register, whole, configured,
}
use xbot_framework.Service.Status.Core.{Core, core-run_method}
use xbot_framework.Template.Members.{
  Template, Protected, Callbacks, register1_size, user_method, over_private,
}
use xbot_framework.Template.Registers.{
  template_set_register, set_register1, set_register2, set_register4, template_registers_valid,
  template_defaults,
}
use xbot_framework.Template.Generated.{template_service}
use xbot_framework.Template.Advertise.{Endpoint}

-- Every result that user code can end with has a property, whatever its calls return.
abbrev pub Ends : {A : Type 0} → (A → Type 0) → Prog A → Type 0
Ends P (done a) = P a
Ends P (call c k) = (b : Bool) → Ends P (k b)

run_prog-Ends :
    {A U : Type 0} (P : A → Type 0) (m : Prog A) (s : Service U) → Ends P m → P (run_prog m s).1
unfolding run_prog
run_prog-Ends P (done a) s h = h
run_prog-Ends P (call c k) s h = let r = exec c s in run_prog-Ends P (k r.1) r.0 (h r.1)

over_private-Ends :
    {V R : Type 0} (P : Protected V → Type 0) (t : Template V) (m : Prog (Protected V × R))
    → Ends (λ (r : Protected V × R). P r.0) m
    → Ends (λ (r : Template V × R). P r.0.protected) (over_private t m)
unfolding over_private
over_private-Ends P t (done r) h = h
over_private-Ends P t (call c k) h = λ b. over_private-Ends P t (k b) (h b)

and_false : (a b c : Bool) → c ≡ false → (a && (b && c)) ≡ false
and_false true true c e = e
and_false true false c e = refl
and_false false b c e = refl

-- Register2 has no valid value.
abbrev pub Lacks : {V : Type 0} → Protected V → Type 0
Lacks p = p.register2.valid ≡ false

-- The service stands, requires configuration and lacks Register2.
abbrev IsWaiting : {V : Type 0} → Service (Template V) → Type 0
IsWaiting s = (s.is_running ≡ false) × (s.config_required ≡ true) × Lacks s.user.protected

module _ {V : Type 0} (c : Callbacks V) (get_endpoint : ℕ → Option Endpoint)
    (keeps : (payload : List ℕ) (p : Protected V)
      → Lacks p
      → Ends
          (λ (r : Protected V × Bool). Lacks r.0)
          (c.on_register_register3_changed payload p)) where
  set_register-Lacks :
      (target_id : ℕ) (content : List ℕ) (t : Template V)
      → target_id ≢ 1
      → Lacks t.protected
      → Ends
          (λ (r : Template V × Bool). Lacks r.0.protected)
          (template_set_register c target_id content t)
  unfolding template_set_register set_register1 set_register4 user_method
  set_register-Lacks target_id content t other h =
      if-keeps Q (target_id == 0) (set_register1 content) _
        (λ _.
          if-keeps E (not (length content % 1 == 0) || ltb register1_size (length content)) _ _
            (λ _. h) (λ _. h))
        (λ _.
          if-keeps Q (target_id == 1) (set_register2 content) _
            (λ e. absurd (other ((==_iff target_id 1).0 e)))
            (λ _.
              if-keeps Q (target_id == 2) (user_method (c.on_register_register3_changed content)) _
                (λ _. over_private-Ends Lacks t _ (keeps content t.protected h))
                (λ _.
                  if-keeps Q (target_id == 3) (set_register4 content) _
                    (λ _. if-keeps E (not (length content == 4)) _ _ (λ _. h) (λ _. h)) (λ _. h))))
    where
      E : Prog (Template V × Bool) → Type 0
      E m = Ends (λ (r : Template V × Bool). Lacks r.0.protected) m

      Q : Method (Template V) Bool → Type 0
      Q m = E (m t)

  one_register-IsWaiting :
      (target_id : ℕ) (content : List ℕ) (s : Service (Template V))
      → target_id ≢ 1
      → IsWaiting s
      → IsWaiting (set_one_register (template_service c get_endpoint) target_id content s).0
  unfolding set_one_register run_method
  one_register-IsWaiting target_id content s other w =
      let m = template_set_register c target_id content in
      (
        ap (λ (k : Core). k.is_running) (core-run_method m s) ∙ w.0,
        ap (λ (k : Core). k.config_required) (core-run_method m s) ∙ w.1,
        run_prog-Ends (λ (r : Template V × Bool). Lacks r.0.protected) (m s.user) s
            (set_register-Lacks target_id content s.user other w.2),
      )

  feed-IsWaiting :
      (fs : List Frame) (s : Service (Template V))
      → All (λ (f : Frame). f.target_id ≢ 1) fs
      → IsWaiting s
      → IsWaiting (feed (set_one_register (template_service c get_endpoint)) fs s).0
  unfolding feed
  feed-IsWaiting [] s others w = w
  feed-IsWaiting (f ∷ fs) s others w =
      let r = set_one_register (template_service c get_endpoint) f.target_id f.content s in
      let w' = one_register-IsWaiting f.target_id f.content s others.0 w in
      elim (Bool-cases r.1) [
        | inl more ↦ rw (more, feed) (feed-IsWaiting fs r.0 others.1 w')
        | inr last ↦ rw (last, feed) w'
      ]

  loaded-IsWaiting :
      (s : Service (Template V))
      → IsWaiting (
          load_configuration_defaults
            (template_service c get_endpoint)
            (stop_if_running (template_service c get_endpoint) s))
  unfolding load_configuration_defaults stop_if_running stop_service on_lifecycle_status_changed
      clear_rpc template_defaults
  loaded-IsWaiting s =
      let impl = template_service c get_endpoint in
      if-keeps (λ (t : Service (Template V)). IsWaiting (load_configuration_defaults impl t))
        s.is_running (stop_service impl s) s (λ _. (refl, refl, refl))
        (λ stands. (stands, refl, refl))

  ended-IsWaiting :
      (n : ℕ) (r : Service (Template V) × Bool) → IsWaiting r.0 → IsWaiting (ended_at n r).0
  ended-IsWaiting n (s, true) w = w
  ended-IsWaiting n (s, false) w = w

  -- A configuration transaction of any pieces among which there is none for Register2, whatever the service's
  -- state was: afterwards the service does not run, and still requires configuration, even if it ran before
  -- with a valid Register2. The user's handler of the blob register is assumed not to make Register2 valid.
  pub configuration-incomplete :
      (fs : List Frame) (s : Service (Template V))
      → All (λ (f : Frame). f.target_id ≢ 1) fs
      → All IsEncodable fs
      → All (λ (f : Frame). IsBytes f.content) fs
      → length (encode_frames fs) < u32_mod
      → let s' =
          handle_configuration_transaction (template_service c get_endpoint) (encode_frames fs) s in
        (s'.is_running ≡ false) × (s'.config_required ≡ true)
  unfolding handle_configuration_transaction set_registers template_registers_valid
  configuration-incomplete fs s others fit bytes short =
      let impl = template_service c get_endpoint in
      let payload = encode_frames fs in
      let loaded = load_configuration_defaults impl (stop_if_running impl s) in
      let r = walk size_mod (set_one_register impl) (suc (length payload)) payload 0 loaded in
      let w : IsWaiting r.0 =
        subst (λ (r : Service (Template V) × Outcome). IsWaiting r.0)
          (sym (
            walk_whole size_mod (set_one_register impl) fs loaded (omega (arith, short))
              (encode_frames-IsBytes fs bytes) fit))
          (ended-IsWaiting (length payload) _
            (feed-IsWaiting fs loaded others (loaded-IsWaiting s))) in
      if-keeps (λ (t : Service (Template V)). (t.is_running ≡ false) × (t.config_required ≡ true))
        (whole impl (length payload) r.1 && template_registers_valid r.0.user)
        (configured impl (start_service impl r.0)) r.0
        (λ valid.
          absurd (true≢false (sym valid ∙ and_false (whole impl (length payload) r.1) _ _ w.2)))
        (λ _. (w.0, w.1))
