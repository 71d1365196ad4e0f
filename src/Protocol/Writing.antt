-- ===== src/Protocol/Writing.antt =====
-- An io.Writer, and `writeAll` over it.
use mathlib.Core.List.{append-nil, append_assoc}
use xmesh.Common.{
  take-append-drop, length-drop, sym, true, false, ℕ, zero, suc, ◌≤◌, ◌≡◌, ◌≢◌, ◌⊎◌, inl, inr, Bool,
  refl, Option, none, some, [], ◌∷◌, ◌++◌, length, take, drop, if◌then◌else◌, ◌==◌, arith,
}
use xmesh.Protocol.Wire.{Bytes}

pub data WriteError : Type 0 where
  short_write write_failed out_of_fuel : WriteError

-- A connection `W` with its Write. `sent` is what the peer can read. Write returns the number of
-- bytes that it took from the front of the buffer, and whether it failed; it may take fewer than all.
pub record Writer (W : Type 0) : Type 0 where
  pub write : W → Bytes → W × ℕ × Bool
  pub sent : W → Bytes
  pub takes_le : (w : W) (b : Bytes) → (write w b).1 ≤ length b
  pub takes_front : (w : W) (b : Bytes) → sent (write w b).0 ≡ sent w ++ take (write w b).1 b

module _ {W : Type 0} (writer : Writer W) where
  open writer use {write, sent, takes_le, takes_front}

  -- `for len(b) > 0`; each round but the last takes at least a byte, so length b rounds are enough.
  unfoldable pub write_loop : ℕ → W → Bytes → W × Option WriteError
  write_loop fuel w [] = (w, none)
  write_loop zero w (x ∷ xs) = (w, some out_of_fuel)
  write_loop (suc fuel) w (x ∷ xs) =
      let (w', n, e) = write w (x ∷ xs) in
      let rest = write_loop fuel w' (drop n (x ∷ xs)) in
      if e then (w', some write_failed) else if n == 0 then (w', some short_write) else rest

  unfoldable pub write_all : W → Bytes → W × Option WriteError
  unfolding write_loop
  write_all w b = write_loop (length b) w b

  -- What a loop has done: a front part of the buffer is sent, all of it where it returns nil, and
  -- the rounds were enough.
  pub record HasSent (w : W) (b : Bytes) (r : W × Option WriteError) : Type 0 where
    pub front : Bytes
    pub back : Bytes
    pub split : b ≡ front ++ back
    pub sent_front : sent r.0 ≡ sent w ++ front
    pub complete : (r.1 ≢ none) ⊎ (back ≡ [])
    pub enough : r.1 ≢ some out_of_fuel

  HasSent-if :
      (w : W) (b : Bytes) (t : Bool) (r s : W × Option WriteError)
      → HasSent w b r
      → (t ≡ false → HasSent w b s)
      → HasSent w b (if t then r else s)
  HasSent-if w b true r s hr hs = hr
  HasSent-if w b false r s hr hs = hs refl

  -- A failing round: what it took is sent.
  HasSent-stop :
      (w : W) (b : Bytes) (e : WriteError) → e ≢ out_of_fuel → HasSent w b ((write w b).0, some e)
  HasSent-stop w b e ne = record {
    front = take (write w b).1 b;
    back = drop (write w b).1 b;
    split = sym (take-append-drop (write w b).1 b);
    sent_front = takes_front w b;
    complete = inl (λ p. cc);
    enough = λ p. ne (ground arith);
  }

  -- A round, and then a loop over the rest of the buffer.
  HasSent-next :
      (w : W) (b : Bytes) (r : W × Option WriteError)
      → HasSent (write w b).0 (drop (write w b).1 b) r
      → HasSent w b r
  HasSent-next w b r ih = record {
    front = take (write w b).1 b ++ ih.front;
    back = ih.back;
    split = cc (
      take-append-drop (write w b).1 b,
      append_assoc (take (write w b).1 b) ih.front ih.back,
      ih.split,
    );
    sent_front =
        cc (takes_front w b, append_assoc (sent w) (take (write w b).1 b) ih.front, ih.sent_front);
    complete = ih.complete;
    enough = ih.enough;
  }

  write_loop-HasSent :
      (fuel : ℕ) (w : W) (b : Bytes) → length b ≤ fuel → HasSent w b (write_loop fuel w b)
  unfolding write_loop
  write_loop-HasSent fuel w [] h = record {
    front = [];
    back = [];
    split = refl;
    sent_front = simp append-nil;
    complete = inr refl;
    enough = λ e. cc;
  }
  write_loop-HasSent zero w (x ∷ xs) h = absurd (omega arith)
  write_loop-HasSent (suc fuel) w (x ∷ xs) h =
      HasSent-if w b _ _ _ (HasSent-stop w b write_failed (λ e. cc)) λ _.
        HasSent-if w b _ _ _ (HasSent-stop w b short_write (λ e. cc)) λ some_taken.
          HasSent-next w b _
            (write_loop-HasSent fuel (write w b).0 (drop (write w b).1 b) (shorter some_taken))
    where
      b : Bytes
      b = x ∷ xs

      shorter : ((write w b).1 == 0) ≡ false → length (drop (write w b).1 b) ≤ fuel
      shorter ne = ground (arith, length-drop (write w b).1 b)

  -- A writer that keeps io.Writer's contract: `writeAll` sends a front part of the buffer, the
  -- whole buffer where it returns nil, and ends within length b rounds.
  pub write_all-HasSent : (w : W) (b : Bytes) → HasSent w b (write_all w b)
  unfolding write_all
  write_all-HasSent w b = write_loop-HasSent (length b) w b (omega arith)

  -- Where it returns nil the whole buffer is sent.
  pub write_all_complete :
      (w : W) (b : Bytes) → (write_all w b).1 ≡ none → sent (write_all w b).0 ≡ sent w ++ b
  write_all_complete w b e =
      let h = write_all-HasSent w b in
      elim h.complete [
        | inl some_error ↦ absurd (some_error e)
        | inr all ↦ cc (h.sent_front, h.split, all, append-nil h.front)
      ]

module _ {W : Type 0} where
  -- `if err := write; err != nil { return err }`, and then the next write.
  abbrev pub after : W × Option WriteError → (W → W × Option WriteError) → W × Option WriteError
  after (w, none) k = k w
  after (w, some e) k = (w, some e)

  pub after-eq-none :
      (r : W × Option WriteError) (k : W → W × Option WriteError)
      → (after r k).1 ≡ none
      → (r.1 ≡ none) × (after r k ≡ k r.0)
  after-eq-none (w, none) k e = (refl, refl)
  after-eq-none (w, some x) k e = cc
