-- ===== src/StringBuilder/Emits.antt =====
-- Commands that append a known text to a string builder, and rules to put them together.
use c_orm.Base.{
  ◌+◌, ◌^◌, ◌<◌, ◌≡◌, refl, ap, ◌∙◌, Option, none, some, [], ◌++◌, append-nil, append_assoc, arith,
  Bytes, length, length-append,
}
use c_orm.Memory.{
  Error, Memory, Machine, machine, Outcome, ok, err, stuck, Cmd, ◌>>=◌, ◌>>◌, pure, get, put,
  inside, zoom, handle,
}
use c_orm.StringBuilder.{StringBuilder, append}
use c_orm.StringBuilder.Append.{Holds, Ends, Ends-bind, append-Ends}

-- `view` finds the string builder, and `frame` the rest of the state.
module _ {S F : Type 0} (view : S → Option StringBuilder) (frame : S → F) where
  -- From a frame `f` the command appends `s` and leaves the frame `g`, or memory runs out.
  pub record Emits (c : Cmd S (Unit {0})) (f : F) (s : Bytes) (g : F) : Type 0 where
    pub run :
        (m : Machine S) (t : Bytes)
        → Holds (view m.object) t
        → frame m.object ≡ f
        → length t + length s < 2 ^ 63
        → Ends view (t ++ s) (λ b. frame b ≡ g) m.memory (c m)

  pub Emits-then :
      {c d : Cmd S (Unit {0})} {f g h : F} {s u : Bytes}
      → Emits c f s g
      → Emits d g u h
      → Emits (c >> d) f (s ++ u) h
  Emits-then {c} {d} {f} {g} {h} {s} {u} first second = record {
    run = λ m t holds start room.
        let split = length-append s u in
        let joined = length-append t s in
        rw (← append_assoc t s u) (
          Ends-bind view (t ++ s) ((t ++ s) ++ u) (λ b. frame b ≡ g) (λ b. frame b ≡ h) m.memory
            (c m) d (first.run m t holds start (omega arith))
            λ m' holds' mid. second.run m' (t ++ s) holds' mid (omega arith));
  }

  -- A command that first reads the state.
  pub Emits-get :
      {k : S → Cmd S (Unit {0})} {f g : F} {s : Bytes}
      → ((b : S) → frame b ≡ f → Emits (k b) f s g)
      → Emits (get >>= k) f s g
  Emits-get h = record { run = λ m t holds start room. (h m.object start).run m t holds start room }

  pub Emits-pure : (f : F) → Emits (pure tt) f [] f
  Emits-pure f = record {
    run = λ m t holds start room. rw append-nil (holds, start, (refl, omega arith));
  }

  -- A write to the rest of the state.
  pub Emits-modify :
      (change : S → S) (f g : F)
      → ((b : S) → view (change b) ≡ view b)
      → ((b : S) → frame b ≡ f → frame (change b) ≡ g)
      → Emits (get >>= λ b. put (change b)) f [] g
  Emits-modify change f g same moves = record {
    run = λ m t holds start room.
        rw (append-nil, same m.object) (holds, moves m.object start, (refl, omega arith));
  }

  -- The same text, written another way.
  pub Emits-text :
      {c : Cmd S (Unit {0})} {f g : F} {s u : Bytes} → s ≡ u → Emits c f s g → Emits c f u g
  Emits-text e h = rw e at h

-- What a string builder alone does.
abbrev pub Says : Cmd (Option StringBuilder) (Unit {0}) → Bytes → Type 0
Says c s = Emits {F = Unit {0}} (λ o. o) (λ _. tt) c tt s tt

module _ {S : Type 0} (view : S → Option StringBuilder) {Q R : S → Type 0} where
  Ends-mono :
      (t : Bytes) (h : Memory) (r : Outcome (Machine S) (Unit {0}))
      → Ends view t Q h r
      → ((b : S) → Q b → R b)
      → Ends view t R h r
  Ends-mono t h (ok _ m) (holds, q, g) weaken = (holds, weaken m.object q, g)
  Ends-mono t h (err e m) end weaken = end
  Ends-mono t h stuck end weaken = end

pub append-Says : (s : Bytes) → Says (append (some s)) s
append-Says s = record {
  run = λ m t holds start room.
      Ends-mono (λ o. o) (t ++ s) m.memory (append (some s) m)
        (append-Ends s t m.memory m.object holds room) (λ _ _. refl);
}

-- A command on the string builder of a larger state leaves the rest alone.
module _ {S F : Type 0} (view : S → Option StringBuilder) (frame : S → F)
    (back : S → Option StringBuilder → S)
    (view-back : (b : S) (o : Option StringBuilder) → view (back b o) ≡ o)
    (frame-back : (b : S) (o : Option StringBuilder) → frame (back b o) ≡ frame b) where
  Ends-zoom :
      (b : S) (f : F) (t : Bytes) (h : Memory)
      (r : Outcome (Machine (Option StringBuilder)) (Unit {0}))
      → frame b ≡ f
      → Ends (λ o. o) t (λ _. tt {0} ≡ tt) h r
      → Ends view t (λ b'. frame b' ≡ f) h (inside (back b) r)
  Ends-zoom b f t h (ok _ m) start (holds, q, g) =
      (rw (view-back b m.object) holds, frame-back b m.object ∙ start, g)
  Ends-zoom b f t h (err e m) start (e', broken, refused) =
      (e', rw (view-back b m.object) broken, refused)
  Ends-zoom b f t h stuck start bad = bad

  pub zoom-Emits :
      (f : F) {c : Cmd (Option StringBuilder) (Unit {0})} {s : Bytes}
      → Says c s
      → Emits view frame (zoom view back c) f s f
  zoom-Emits f {c} {s} says = record {
    run = λ m t holds start room.
        Ends-zoom m.object f (t ++ s) m.memory (c (machine m.memory (view m.object))) start
          (says.run (machine m.memory (view m.object)) t holds refl room);
  }

-- A command on what a handle points to, where the handle is not NULL.
module _ {S F : Type 0} (view : S → Option StringBuilder) (frame : S → F) where
  abbrev pub view_at : Option S → Option StringBuilder
  view_at none = none
  view_at (some b) = view b

  abbrev pub frame_at : Option S → Option F
  frame_at none = none
  frame_at (some b) = some (frame b)

  Ends-some :
      (g : F) (t : Bytes) (h : Memory) (r : Outcome (Machine S) (Unit {0}))
      → Ends view t (λ b. frame b ≡ g) h r
      → Ends view_at t (λ o. frame_at o ≡ some g) h (inside some r)
  Ends-some g t h (ok _ m) (holds, q, grown) = (holds, ap some q, grown)
  Ends-some g t h (err e m) end = end
  Ends-some g t h stuck bad = bad

  handled :
      (e : Error) (c : Cmd S (Unit {0})) (f g : F) (s t : Bytes) (h : Memory) (o : Option S)
      → Emits view frame c f s g
      → Holds (view_at o) t
      → frame_at o ≡ some f
      → length t + length s < 2 ^ 63
      → Ends view_at (t ++ s) (λ o. frame_at o ≡ some g) h (handle e c (machine h o))
  handled e c f g s t h none emits holds start room = absurd holds
  handled e c f g s t h (some b) emits holds start room =
      Ends-some g (t ++ s) h (c (machine h b)) (emits.run (machine h b) t holds (cc) room)

  pub handle-Emits :
      (e : Error) {c : Cmd S (Unit {0})} {f g : F} {s : Bytes}
      → Emits view frame c f s g
      → Emits view_at frame_at (handle e c) (some f) s (some g)
  handle-Emits e {c} {f} {g} {s} emits = record {
    run = λ m t holds start room. handled e c f g s t m.memory m.object emits holds start room;
  }
