-- ===== src/Tokio/Server/History.antt =====
-- The frames that the tasks of an asynchronous worker have sent to its channel, in their order, with
-- those that were lost after the writer failed: how many of them are written.
use mathlib.Core.List.{append_assoc}
use outboard.Prelude.{
  ◌≡◌, refl, sym, ap, ◌∙◌, List, [], ◌∷◌, ◌++◌, Option, none, some, ok, err, nat_eq, arith, zero,
  suc, Option-cases, inl, inr,
}
use outboard.Crates.{Crates}
use outboard.Protocol.{PluginFrame}
use outboard.Protocol.Framing.{FrameError}
use outboard.Worker.{Writer, Written, send}
use outboard.Worker.Server.Laws.{send-ok}
use outboard.Tokio.Server.{Outbox, post, write_next, round, wrote}
use outboard.Tokio.Server.Tables.{Whenever}

module _ (lib : Crates) (J E : Type 0) where
  -- The frames so far, of which the writer has written a first part. The rest waits in the
  -- channel, unless the writer has failed.
  pub record Kept (hs : List (PluginFrame lib)) (o : Outbox lib J E) : Type 0 where
    pub waiting : List (PluginFrame lib)
    pub all : hs ≡ o.writer.sent ++ waiting
    pub live : o.broken ≡ none → waiting ≡ o.channel

  post-writer : (f : PluginFrame lib) (o : Outbox lib J E) → (post lib J E f o).writer ≡ o.writer
  unfolding post
  post-writer f o = elim (Option-cases o.broken) [
    | inl e ↦ ground arith
    | inr (x, e) ↦ ground arith
  ]

  send-err :
      (w w' : Writer J (PluginFrame lib)) (f : PluginFrame lib) (x : FrameError J)
      → send f w ≡ (err x, w')
      → w'.sent ≡ w.sent
  unfolding send
  send-err w w' f x h = elim (Option-cases w.fault) [
    | inl p ↦ ground arith
    | inr ((zero, e), p) ↦ ground arith
    | inr ((suc n, e), p) ↦ ground arith
  ]

  -- The frames after one more is sent
  pub Kept-post :
      {hs : List (PluginFrame lib)} {o : Outbox lib J E} (f : PluginFrame lib)
      → Kept hs o
      → Kept (hs ++ f ∷ []) (post lib J E f o)
  unfolding post
  Kept-post {hs} {o} f k = record {
    waiting = k.waiting ++ f ∷ [];
    all =
        ap (λ xs. xs ++ f ∷ []) k.all
        ∙ append_assoc o.writer.sent k.waiting (f ∷ [])
        ∙ ap (λ w. w.sent ++ (k.waiting ++ f ∷ [])) (sym (post-writer f o));
    live = λ u. elim (Option-cases o.broken) [
      | inl e ↦ let waits = k.live e in ground arith
      | inr (x, e) ↦ ground arith
    ];
  }

  pub Kept-write_next :
      {hs : List (PluginFrame lib)} (o : Outbox lib J E)
      → Kept hs o
      → Whenever (Kept hs) (write_next lib J E o)
  unfolding write_next
  Kept-write_next {hs} o k = go o.broken refl o.channel refl
    where
      go :
          (broken : Option (FrameError J))
          → o.broken ≡ broken
          → (fs : List (PluginFrame lib)) → o.channel ≡ fs
          → Whenever (Kept hs) (round lib J E fs o broken)
      go (some e) b fs c = tt
      go none b [] c = tt
      go none b (f ∷ fs) c = written (send f o.writer) refl
        where
          written :
              (r : Written J (PluginFrame lib))
              → send f o.writer ≡ r
              → Kept hs (wrote lib J E fs o r)
          written (ok u, w) e = record {
            waiting = fs;
            all =
                k.all
                ∙ ap (λ xs. o.writer.sent ++ xs) (k.live b ∙ c)
                ∙ sym (append_assoc o.writer.sent (f ∷ []) fs)
                ∙ ap (λ xs. xs ++ fs) (sym (send-ok lib J o.writer w f e));
            live = λ u. refl;
          }
          written (err x, w) e = record {
            waiting = k.waiting;
            all = k.all ∙ ap (λ xs. xs ++ k.waiting) (sym (send-err o.writer w f x e));
            live = λ u. cc;
          }
