-- ===== src/Tokio/Server/Close.antt =====
-- What the end of a session of the asynchronous worker has to do with its frames: behind the
-- acknowledgement of a shutdown only clones of contexts write.
use mathlib.Core.List.{append_assoc}
use outboard.Prelude.{
  ◌≡◌, ◌≢◌, sym, ap, ◌∙◌, subst, List, [], ◌∷◌, ◌++◌, none, some, ok, err, All, All-append, arith,
}
use outboard.Crates.{Crates}
use outboard.Protocol.{RequestId, PluginFrame, shutdown_ack}
use outboard.Worker.Server.Laws.{IsEvent}
use outboard.Tokio.Server.{
  Job, Outbox, Phase, serving, cancelling, joining, draining, ended, Server, write_next, post,
  sends,
}
use outboard.Tokio.Server.Talk.{Stand, Says}
use outboard.Tokio.Server.History.{Kept, Kept-post}
use outboard.Tokio.Server.Told.{Told, Told-said}

module _ (lib : Crates) (J E : Type 0) where
  abbrev pub NotAck : PluginFrame lib → Type 0
  NotAck f = f ≢ shutdown_ack

  -- A progress or an output of some request
  abbrev pub IsReport : PluginFrame lib → Type 0
  IsReport f = (i : RequestId) × IsEvent lib J i f

  -- The frames have one acknowledgement of a shutdown, and behind it progress and outputs only.
  abbrev pub Acked : List (PluginFrame lib) → Type 0
  Acked hs =
      (xs : List (PluginFrame lib)) × (ys : List (PluginFrame lib)) × (hs ≡ xs ++ shutdown_ack ∷ ys)
      × All NotAck xs
      × All IsReport ys

  Acked-report :
      (hs : List (PluginFrame lib)) (f : PluginFrame lib)
      → IsReport f
      → Acked hs
      → Acked (hs ++ f ∷ [])
  Acked-report hs f r (xs, ys, e, before, behind) = (
    xs,
    ys ++ f ∷ [],
    ap (λ zs. zs ++ f ∷ []) e ∙ append_assoc xs (shutdown_ack ∷ ys) (f ∷ []),
    before,
    All-append IsReport ys (f ∷ []) behind (r, tt),
  )

  -- What the end of a session has to do with its frames.
  abbrev pub Close :
      Phase lib J E
      → List (PluginFrame lib)
      → List (Job lib J E)
      → List RequestId
      → Outbox lib J E
      → Type 0
  Close draining hs tasks clones o = Acked hs × (tasks ≡ [])
  Close (ended (ok u)) hs tasks clones o =
      Acked hs
      × (tasks ≡ [])
      × (clones ≡ [])
      × (hs ≡ o.writer.sent)
      × (o.broken ≡ none)
      × (o.channel ≡ [])
  Close (ended (err e)) hs tasks clones o = tasks ≡ []
  Close _ hs tasks clones o = All NotAck hs

  pub record Course (s : Server lib J E) (hs : List (PluginFrame lib)) : Type 0 where
    pub kept : Kept lib J E hs s.outbox
    pub told : (i : RequestId) → Told lib J E s.pending s.tasks s.clones hs i

  abbrev pub Story : Server lib J E → Type 0
  Story s = (hs : List (PluginFrame lib)) × Course s hs × Close s.phase hs s.tasks s.clones s.outbox

  pub one_more :
      (hs : List (PluginFrame lib)) (f : PluginFrame lib)
      → All NotAck hs
      → NotAck f
      → All NotAck (hs ++ f ∷ [])
  one_more hs f h n = All-append NotAck hs (f ∷ []) h (n, tt)

  some_left : {A : Type 0} (before : List A) (j : A) (after : List A) → before ++ j ∷ after ≢ []
  some_left [] j after e = cc
  some_left (k ∷ before) j after e = cc

  -- While a task is left, the session has not ended.
  pub Close-while :
      (before : List (Job lib J E)) (j : Job lib J E) (after : List (Job lib J E))
      (hs hs' : List (PluginFrame lib)) (p : Phase lib J E) (tasks : List (Job lib J E))
      (clones clones' : List RequestId) (out out' : Outbox lib J E)
      → Close p hs (before ++ j ∷ after) clones out
      → (All NotAck hs → All NotAck hs')
      → Close p hs' tasks clones' out'
  Close-while before j after hs hs' serving _ _ _ _ _ close n = n close
  Close-while before j after hs hs' (cancelling id) _ _ _ _ _ close n = n close
  Close-while before j after hs hs' joining _ _ _ _ _ close n = n close
  Close-while before j after hs hs' draining _ _ _ _ _ (acked, none_left) n =
      elim (some_left before j after none_left) [ ]
  Close-while before j after hs hs' (ended (ok u)) _ _ _ _ _ close n =
      elim (some_left before j after close.1) [ ]
  Close-while before j after hs hs' (ended (err e)) _ _ _ _ _ close n =
      elim (some_left before j after close) [ ]

  -- A clone is used: it sends a frame.
  pub Close-reported :
      (before : List RequestId) (i : RequestId) (after : List RequestId)
      (hs : List (PluginFrame lib)) (f : PluginFrame lib) (p : Phase lib J E)
      (tasks : List (Job lib J E)) (clones clones' : List RequestId) (out out' : Outbox lib J E)
      → clones ≡ before ++ i ∷ after
      → IsEvent lib J i f
      → NotAck f
      → Close p hs tasks clones out
      → Close p (hs ++ f ∷ []) tasks clones' out'
  Close-reported before i after hs f serving _ _ _ _ _ e r n close = one_more hs f close n
  Close-reported before i after hs f (cancelling id) _ _ _ _ _ e r n close = one_more hs f close n
  Close-reported before i after hs f joining _ _ _ _ _ e r n close = one_more hs f close n
  Close-reported before i after hs f draining _ _ _ _ _ e r n (acked, none_left) =
      (Acked-report hs f (i, r) acked, none_left)
  Close-reported before i after hs f (ended (ok u)) _ _ _ _ _ e r n close =
      elim (some_left before i after (sym e ∙ close.2)) [ ]
  Close-reported before i after hs f (ended (err x)) _ _ _ _ _ e r n close = close

  -- It is cloned or dropped.
  pub Close-passed :
      (before : List RequestId) (i : RequestId) (after : List RequestId)
      (hs : List (PluginFrame lib)) (p : Phase lib J E) (tasks : List (Job lib J E))
      (clones clones' : List RequestId) (out : Outbox lib J E)
      → clones ≡ before ++ i ∷ after
      → Close p hs tasks clones out
      → Close p hs tasks clones' out
  Close-passed before i after hs serving _ _ _ _ e close = close
  Close-passed before i after hs (cancelling id) _ _ _ _ e close = close
  Close-passed before i after hs joining _ _ _ _ e close = close
  Close-passed before i after hs draining _ _ _ _ e close = close
  Close-passed before i after hs (ended (ok u)) _ _ _ _ e close =
      elim (some_left before i after (sym e ∙ close.2)) [ ]
  Close-passed before i after hs (ended (err x)) _ _ _ _ e close = close

  pub Close-written :
      (s : Server lib J E) (hs : List (PluginFrame lib)) (out : Outbox lib J E) (p : Phase lib J E)
      → write_next lib J E s.outbox ≡ some out
      → Close p hs s.tasks s.clones s.outbox
      → Close p hs s.tasks s.clones out
  unfolding write_next
  Close-written s hs out serving e close = close
  Close-written s hs out (cancelling id) e close = close
  Close-written s hs out joining e close = close
  Close-written s hs out draining e close = close
  Close-written s hs out (ended (err x)) e close = close
  Close-written s hs out (ended (ok u)) e (acked, none_left, unused, all, live, drained) =
      ground arith

  -- The main task sends a frame that leaves every request as it was.
  pub said :
      (s : Server lib J E) (hs : List (PluginFrame lib)) (f : PluginFrame lib) (p : Phase lib J E)
      → Course s hs
      → ((i : RequestId) (b : Stand) → Says lib J i b f b)
      → Close p (hs ++ f ∷ []) s.tasks s.clones (post lib J E f s.outbox)
      → Story (record s { outbox = post lib J E f s.outbox; phase = p })
  said s hs f p c says close = (
    hs ++ f ∷ [],
    record {
      kept = Kept-post lib J E f c.kept;
      told = λ i. Told-said lib J E f (says i) (c.told i);
    },
    close,
  )

  -- It does so and stays at its loop.
  pub answered :
      (s : Server lib J E) (hs : List (PluginFrame lib)) (f : PluginFrame lib)
      → Course s hs
      → All NotAck hs
      → s.phase ≡ serving
      → ((i : RequestId) (b : Stand) → Says lib J i b f b)
      → NotAck f
      → Story (sends lib J E f s)
  answered s hs f c n p says ne =
      subst (λ q. Story (record s { outbox = post lib J E f s.outbox; phase = q })) (sym p)
        (said s hs f serving c says (one_more hs f n ne))
