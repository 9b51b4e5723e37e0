-- ===== src/Tokio/Server/Told.antt =====
-- What the frames of an asynchronous worker say of a request, beside its entry in the map and its
-- task: how each step of the worker keeps them together.
use outboard.Prelude.{
  ◌≡◌, ◌≢◌, refl, sym, subst, List, [], ◌∷◌, ◌++◌, none, some, All, All-map, nat_eq, arith, ◌==◌,
  Bool-cases, nat_beq_iff, inl, inr,
}
use outboard.Crates.{Crates}
use outboard.Protocol.{RequestId, PluginFrame, WorkerError, started, error, request_id}
use outboard.Tokio.{RequestMap, entry_of, without}
use outboard.Tokio.Server.{Stage, running, closed, Job}
use outboard.Tokio.Server.Tables.{entry_of-without_other, All-split, All-put}
use outboard.Tokio.Server.Talk.{
  Stand, unheard, active, over, Says, Talk, Talk-append, says, nothing, begins, reports, remarks,
  other,
}
use outboard.Tokio.Server.Ownership.{Owns}
use outboard.Tokio.Server.{CloneUse, clones_left}
use outboard.Tokio.Server.Clones.{clones_left-All}
use outboard.Worker.Server.Laws.{IsEvent}

module _ (lib : Crates) (J E : Type 0) where
  -- What a task shows of its request: that it has begun and not ended.
  abbrev pub in_handler : Stage lib J E → Stand
  in_handler (running t) = active
  in_handler closed = over

  -- A clone of a context shows that its request was started.
  abbrev pub Heard : RequestId → Stand → RequestId → Type 0
  Heard i b k = k ≡ i → b ≢ unheard

  abbrev pub Shows : RequestId → Stand → Job lib J E → Type 0
  Shows i b j = j.id ≡ i → b ≡ in_handler j.stage

  -- What the frames say of a request, beside its entry in the map and its task.
  pub record Told (pending : RequestMap) (tasks : List (Job lib J E)) (clones : List RequestId)
      (hs : List (PluginFrame lib)) (i : RequestId) : Type 0 where
    pub begun : Stand
    pub talk : Talk lib J i unheard hs begun
    pub held : begun ≡ active → entry_of i pending ≢ none
    pub shown : All (Shows i begun) tasks
    pub heard : All (Heard i begun) clones

  heard_all : (i : RequestId) (b : Stand) (ks : List RequestId) → b ≢ unheard → All (Heard i b) ks
  heard_all i b [] ne = tt
  heard_all i b (k ∷ ks) ne = ((λ e. ne), heard_all i b ks ne)

  heard_active : (st : Stage lib J E) → in_handler st ≢ unheard
  heard_active (running t) e = cc (e)
  heard_active closed e = cc (e)

  -- A frame that leaves every request as it was
  pub Told-said :
      {pending : RequestMap} {tasks : List (Job lib J E)} {clones : List RequestId}
      {hs : List (PluginFrame lib)} {i : RequestId} (f : PluginFrame lib)
      → ((b : Stand) → Says lib J i b f b)
      → Told pending tasks clones hs i
      → Told pending tasks clones (hs ++ f ∷ []) i
  Told-said {hs} f s t = record {
    begun = t.begun;
    talk = Talk-append lib J _ hs t.talk (says (s t.begun) nothing);
    held = t.held;
    shown = t.shown;
    heard = t.heard;
  }

  -- An error that names a request is a remark for it and nothing for the others.
  pub remark :
      (id : RequestId) (e : WorkerError lib) (i : RequestId) (b : Stand)
      → Says lib J i b (error (some id) e) b
  unfolding request_id
  remark id e i b = elim (Bool-cases (id == i)) [
    | inl same ↦
        let id_same = (nat_beq_iff id i).0 same in
        subst (λ k. Says lib J i b (error (some k) e) b) (sym id_same) (remarks e)
    | inr differ ↦ other (λ h. ground arith)
  ]

  pub silent :
      (f : PluginFrame lib)
      → request_id lib f ≡ none
      → (i : RequestId) (b : Stand) → Says lib J i b f b
  silent f e i b = other (λ h. cc)

  -- A request is accepted.
  pub Told-accepted :
      {pending : RequestMap} (tasks : List (Job lib J E)) {clones : List RequestId}
      {hs : List (PluginFrame lib)} (j : Job lib J E) (i : RequestId)
      → in_handler j.stage ≡ active
      → entry_of j.id pending ≡ none
      → All (Owns lib J E pending) tasks
      → Told pending tasks clones hs i
      → Told ((j.id, j.token) ∷ pending) (j ∷ tasks) clones (hs ++ started j.id ∷ []) i
  unfolding request_id
  Told-accepted {pending} tasks {hs} j i stage free own t = elim (Bool-cases (j.id == i)) [
    | inl same ↦
        let at : j.id ≡ i = (nat_beq_iff j.id i).0 same in
        let before : t.begun ≢ active = λ e. t.held e (ground arith) in
        record {
          begun = active;
          talk = Talk-append lib J _ hs t.talk (
              subst (λ k. Talk lib J i t.begun (started k ∷ []) active) (sym at)
                (says (begins before) nothing));
          held = λ h. ground arith;
          shown = ((λ e. sym stage), fresh at tasks own);
          heard = heard_all i active _ (λ e. cc (e));
        }
    | inr differ ↦ record {
      begun = t.begun;
      talk = Talk-append lib J _ hs t.talk (says (other (λ h. ground arith)) nothing);
      held = λ h. let old = t.held h in ground arith;
      shown = ((λ e. ground arith), t.shown);
      heard = t.heard;
    }
  ]
    where
      fresh :
          j.id ≡ i
          → (js : List (Job lib J E)) → All (Owns lib J E pending) js
          → All (Shows i active) js
      fresh at [] _ = tt
      fresh at (k ∷ js) (o, rest) = ((λ e. ground arith), fresh at js rest)

  abbrev at_stage : Job lib J E → Stage lib J E → Job lib J E
  at_stage j st = record j { stage = st }

  -- What the other tasks show when nothing was sent for them.
  others :
      (i : RequestId) (b : Stand) (before : List (Job lib J E)) (j : Job lib J E)
      (after : List (Job lib J E)) (st : Stage lib J E)
      → (j.id ≡ i → b ≡ in_handler st)
      → All (Shows i b) (before ++ j ∷ after)
      → All (Shows i b) (before ++ at_stage j st ∷ after)
  others i b before j after st own shown =
      All-put (Shows i b) before (at_stage j st) after own
        (All-split (Shows i b) before j after shown).1

  away :
      (i : RequestId) (b : Stand) (j : Job lib J E) (js : List (Job lib J E))
      → j.id ≡ i
      → All (λ k. k.id ≢ j.id) js
      → All (Shows i b) js
  away i b j js at far = All-map (λ k. k.id ≢ j.id) (Shows i b) (λ k ne. λ e. ground arith) js far

  -- A task in the handler goes on without a frame.
  pub Told-moved :
      {pending : RequestMap} {clones : List RequestId} {hs : List (PluginFrame lib)}
      (before : List (Job lib J E)) (j : Job lib J E) (after : List (Job lib J E))
      (st : Stage lib J E) (i : RequestId)
      → in_handler j.stage ≡ in_handler st
      → Told pending (before ++ j ∷ after) clones hs i
      → Told pending (before ++ at_stage j st ∷ after) clones hs i
  Told-moved before j after st i e t = record {
    begun = t.begun;
    talk = t.talk;
    held = t.held;
    shown =
        let mine = (All-split (Shows i t.begun) before j after t.shown).0 in
        others i t.begun before j after st (λ at. ground (arith, mine at)) t.shown;
    heard = t.heard;
  }

  -- A task in the handler sends a frame of its request.
  pub Told-sent :
      {pending : RequestMap} {clones : List RequestId} {hs : List (PluginFrame lib)}
      (before : List (Job lib J E)) (j : Job lib J E) (after : List (Job lib J E))
      (st : Stage lib J E) (f : PluginFrame lib) (i : RequestId)
      → in_handler j.stage ≡ active
      → Says lib J j.id active f (in_handler st)
      → request_id lib f ≡ some j.id
      → Owns lib J E pending j
      → All (λ k. k.id ≢ j.id) (before ++ after)
      → Told pending (before ++ j ∷ after) clones hs i
      → Told pending (before ++ at_stage j st ∷ after) clones (hs ++ f ∷ []) i
  Told-sent {pending} {hs} before j after st f i was s names own far t =
      elim (Bool-cases (j.id == i)) [
        | inl same ↦
            let at : j.id ≡ i = (nat_beq_iff j.id i).0 same in
            let mine = (All-split (Shows i t.begun) before j after t.shown).0 at in
            let begun : active ≡ t.begun = ground arith in
            record {
              begun = in_handler st;
              talk = Talk-append lib J _ hs t.talk (
                  subst (λ b. Talk lib J i b (f ∷ []) (in_handler st)) begun
                    (subst (λ k. Talk lib J k active (f ∷ []) (in_handler st)) at
                      (says s nothing)));
              held = λ h. λ gone. ground arith;
              shown =
                  All-put (Shows i (in_handler st)) before (at_stage j st) after (λ e. refl)
                    (away i (in_handler st) j (before ++ after) at far);
              heard = heard_all i (in_handler st) _ (heard_active st);
            }
        | inr differ ↦ record {
          begun = t.begun;
          talk = Talk-append lib J _ hs t.talk (says (other (λ h. ground arith)) nothing);
          held = t.held;
          shown = others i t.begun before j after st (λ e. ground arith) t.shown;
          heard = t.heard;
        }
      ]

  -- A task ends without its last steps.
  pub Told-dropped :
      {pending : RequestMap} {clones : List RequestId} {hs : List (PluginFrame lib)}
      (before : List (Job lib J E)) (j : Job lib J E) (after : List (Job lib J E)) (i : RequestId)
      → Told pending (before ++ j ∷ after) clones hs i
      → Told pending (before ++ after) clones hs i
  Told-dropped before j after i t = record {
    begun = t.begun;
    talk = t.talk;
    held = t.held;
    shown = (All-split (Shows i t.begun) before j after t.shown).1;
    heard = t.heard;
  }

  -- A task whose last frame is sent removes the entry of its request.
  pub Told-released :
      {pending : RequestMap} {clones : List RequestId} {hs : List (PluginFrame lib)}
      (before : List (Job lib J E)) (j : Job lib J E) (after : List (Job lib J E)) (i : RequestId)
      → in_handler j.stage ≡ over
      → Told pending (before ++ j ∷ after) clones hs i
      → Told (without j.id pending) (before ++ after) clones hs i
  Told-released {pending} before j after i was t =
      let (mine, rest) = All-split (Shows i t.begun) before j after t.shown in
      record {
        begun = t.begun;
        talk = t.talk;
        held = λ h. λ gone. elim (Bool-cases (j.id == i)) [
          | inl same ↦ ground (arith, mine ((nat_beq_iff j.id i).0 same))
          | inr differ ↦
              let kept = entry_of-without_other i j.id pending (λ e. ground arith) in
              ground (arith, t.held h)
        ];
        shown = rest;
        heard = t.heard;
      }

  -- A task in the handler gives a clone of its context away.
  pub Told-given :
      {pending : RequestMap} {tasks : List (Job lib J E)} {clones : List RequestId}
      {hs : List (PluginFrame lib)} (id i : RequestId)
      → (t : Told pending tasks clones hs i) → (id ≡ i → t.begun ≡ active)
      → Told pending tasks (id ∷ clones) hs i
  Told-given id i t mine = record {
    begun = t.begun;
    talk = t.talk;
    held = t.held;
    shown = t.shown;
    heard = ((λ e. λ u. let a = mine e in ground arith), t.heard);
  }

  -- A clone is used and sends a frame of its request.
  pub Told-reported :
      {pending : RequestMap} {tasks : List (Job lib J E)} {clones : List RequestId}
      {hs : List (PluginFrame lib)} (u : CloneUse lib J E) (before : List RequestId)
      (id : RequestId) (after : List RequestId) (f : PluginFrame lib) (i : RequestId)
      → clones ≡ before ++ id ∷ after
      → IsEvent lib J id f
      → request_id lib f ≡ some id
      → Told pending tasks clones hs i
      → Told pending tasks (clones_left lib J E u clones before id after) (hs ++ f ∷ []) i
  Told-reported {hs} u before id after f i e event names t =
      let (mine, rest) = clones_left-All lib J E (Heard i t.begun) u before id after _ e t.heard in
      record {
        begun = t.begun;
        talk = Talk-append lib J _ hs t.talk (says (speaks mine) nothing);
        held = t.held;
        shown = t.shown;
        heard = rest;
      }
    where
      speaks : {b : Stand} → Heard i b id → Says lib J i b f b
      speaks mine = elim (Bool-cases (id == i)) [
        | inl same ↦
            let at = (nat_beq_iff id i).0 same in
            reports (mine at) (subst (λ k. IsEvent lib J k f) at event)
        | inr differ ↦ other (λ h. ground arith)
      ]

  -- A clone is cloned or dropped.
  pub Told-passed :
      {pending : RequestMap} {tasks : List (Job lib J E)} {clones : List RequestId}
      {hs : List (PluginFrame lib)} (u : CloneUse lib J E) (before : List RequestId)
      (id : RequestId) (after : List RequestId) (i : RequestId)
      → clones ≡ before ++ id ∷ after
      → Told pending tasks clones hs i
      → Told pending tasks (clones_left lib J E u clones before id after) hs i
  Told-passed u before id after i e t = record {
    begun = t.begun;
    talk = t.talk;
    held = t.held;
    shown = t.shown;
    heard = (clones_left-All lib J E (Heard i t.begun) u before id after _ e t.heard).1;
  }
