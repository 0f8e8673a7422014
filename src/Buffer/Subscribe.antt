-- ===== src/Buffer/Subscribe.antt =====
-- Registering a reader: the preload from the newest key frame, and the set of subscribers.
use mathlib.Core.Bool.{false≢true}
use mathlib.Core.List.{append-nil, append_assoc}
use ruseon_core.Common.{
  ℕ, zero, suc, ◌+◌, ◌-◌, ◌≤◌, ◌<◌, ◌≡◌, ◌≢◌, refl, sym, ap, ◌∙◌, Bool, true, false, ◌||◌, ◌⊎◌, inl,
  inr, some, List, [], ◌∷◌, ◌++◌, length, length-append, get_elem?, drop, ltb, ◌==◌, arith,
  Bool-cases, ℕ_discrete, subst, length-drop,
}
use ruseon_core.Common.Dict.{lookup-insert}
use ruseon_core.Common.Go.{returns, ◌>>=◌, Chan, make_chan, send}
use ruseon_core.Common.Heap.{update, update_self, update_ne}
use ruseon_core.Buffer.{
  Frame, Reader, RingBuffer, slot, preload, register, subscribe, find_last_iframe_locked,
}
use ruseon_core.Buffer.Receive.{IsOpen}
use ruseon_core.Buffer.Broadcast.{member, Distinct}
use ruseon_core.Buffer.Log.{IsValid, IsLog, slot_congr}
use ruseon_core.Buffer.Search.{Found, Newest, NoKey, find_last_iframe_locked-Found}

get_elem?-drop :
    (xs : List Frame) (i : ℕ)
    → i < length xs
    → (f : Frame) × (get_elem? xs i ≡ some f) × (drop i xs ≡ f ∷ drop (i + 1) xs)
get_elem?-drop [] i h = elim h [ ]
get_elem?-drop (x ∷ xs) zero h = (x, refl, refl)
get_elem?-drop (x ∷ xs) (suc i) h =
    let (f, at_i, rest) = get_elem?-drop xs i (omega arith) in
    let shift : suc (i + 1) ≡ suc i + 1 = omega arith in
    (f, at_i, rest ∙ ap (λ k. f ∷ drop k (x ∷ xs)) shift)

drop_all : (xs : List Frame) (i : ℕ) → length xs ≤ i → drop i xs ≡ []
drop_all [] zero h = refl
drop_all [] (suc i) h = refl
drop_all (x ∷ xs) zero h = elim h [ ]
drop_all (x ∷ xs) (suc i) h = drop_all xs i (omega arith)

send_room :
    (f : Frame) (c : Chan Frame)
    → c.closed ≡ false
    → length c.queue < c.cap
    → send f c ≡ returns (record c { queue = c.queue ++ (f ∷ []) })
unfolding send
send_room f c o r = ground arith

preload_step :
    (n i : ℕ) (rb : RingBuffer) (f : Frame) (c : Chan Frame)
    → slot rb i ≡ some f
    → c.closed ≡ false
    → length c.queue < c.cap
    → preload (suc n) i rb c ≡ preload n (i + 1) rb (record c { queue = c.queue ++ (f ∷ []) })
unfolding preload
preload_step n i rb f c e o r = rw (e, preload, send_room f c o r)

-- With room for what is left the loop neither blocks nor panics, and it sends the log from `i` on.
pub preload_lem :
    (n i : ℕ) (rb : RingBuffer) (log : List Frame) (c : Chan Frame)
    → IsLog rb log
    → i + n ≡ length log
    → length log ≤ i + rb.capacity
    → c.closed ≡ false
    → length c.queue + n ≤ c.cap
    → preload n i rb c ≡ returns (record c { queue = c.queue ++ drop i log })
unfolding preload
preload_lem zero i rb log c l e w o r = rw (drop_all log i (omega arith), append-nil)
preload_lem (suc n) i rb log c l e w o r =
    let (f, at_i, rest) = get_elem?-drop log i (omega arith) in
    preload_step n i rb f c (l.window i (omega arith) w ∙ at_i) o (omega arith)
    ∙ preload_lem n (i + 1) rb log (record c { queue = c.queue ++ (f ∷ []) }) l (omega arith)
        (omega arith) o (omega (arith, length-append c.queue (f ∷ [])))
    ∙ (rw (rest, append_assoc))

member-append : (j k : ℕ) (xs : List ℕ) → member j (xs ++ (k ∷ [])) ≡ (member j xs || k == j)
member-append j k [] = ground arith
member-append j k (x ∷ xs) = ground (arith, member-append j k xs)

Distinct-append :
    (k : ℕ) (xs : List ℕ) → Distinct xs → member k xs ≡ false → Distinct (xs ++ (k ∷ []))
Distinct-append k [] d m = (refl, tt)
Distinct-append k (x ∷ xs) d m =
    (ground (arith, member-append x k xs), Distinct-append k xs d.1 (ground arith))

-- An address that is not allocated is nobody's.
not-member-next : (rb : RingBuffer) → IsValid rb → member rb.next_reader rb.subs_slice ≡ false
not-member-next rb v = elim (Bool-cases (member rb.next_reader rb.subs_slice)) [
  | inl m ↦ absurd (omega (arith, v.allocated rb.next_reader m))
  | inr m ↦ m
]

register-IsValid :
    (r : Reader) (rb : RingBuffer)
    → IsValid rb
    → rb.closed ≡ false
    → IsOpen rb.capacity r
    → IsValid (register r rb).0
unfolding register
register-IsValid r rb v o open_r = record {
  positive = v.positive;
  sized = v.sized;
  counted = v.counted;
  distinct = Distinct-append rb.next_reader rb.subs_slice v.distinct (not-member-next rb v);
  opened = λ j m. elim (ℕ_discrete rb.next_reader j) [
    | yes e ↦
        subst (IsOpen rb.capacity)
          (sym (
            ap (update ℕ_discrete rb.readers rb.next_reader r) (sym e)
            ∙ update_self ℕ_discrete rb.readers rb.next_reader r))
          open_r
    | no n ↦
        subst (IsOpen rb.capacity) (sym (update_ne ℕ_discrete rb.readers rb.next_reader j r n))
          (v.opened j (ground (arith, member-append j rb.next_reader rb.subs_slice)))
  ];
  allocated = λ j m. elim (ℕ_discrete rb.next_reader j) [
    | yes e ↦ omega arith
    | no n ↦
        let older : j < rb.next_reader =
          v.allocated j (ground (arith, member-append j rb.next_reader rb.subs_slice)) in
        omega arith
  ];
  registered = λ j. ground (
    arith,
    lookup-insert ℕ_discrete rb.next_reader j tt rb.subs,
    member-append j rb.next_reader rb.subs_slice,
    v.registered j,
  );
  silent = λ e. absurd (false≢true (sym o ∙ e));
}

fresh_reader : Bool → Chan Frame → Reader
fresh_reader needs c = record { c = c; drops = 0; needs_iframe = needs }

subscribe_found :
    (rb : RingBuffer) (k h : ℕ)
    → rb.closed ≡ false
    → find_last_iframe_locked rb ≡ (k, true, h)
    → subscribe rb ≡ (
        preload (h - k) k rb (make_chan rb.capacity) >>= λ c.
        returns (register (fresh_reader false c) rb))
unfolding subscribe fresh_reader
subscribe_found rb k h o e = simp (o, e)

subscribe_not_found :
    (rb : RingBuffer) (k h : ℕ)
    → rb.closed ≡ false
    → find_last_iframe_locked rb ≡ (k, false, h)
    → subscribe rb ≡ returns (register (fresh_reader (ltb 0 h) (make_chan rb.capacity)) rb)
unfolding subscribe fresh_reader
subscribe_not_found rb k h o e = simp (o, e)

-- What a new reader starts with: the log from its newest key frame on, and in step; or, where the
-- window holds no key frame, an empty queue and, if anything was ever written, out of step.
abbrev pub Preloaded : List Frame → ℕ → Reader → Type 0
Preloaded log lo r =
    ((k : ℕ) × Newest log lo (length log) (some k)
      × (r.c.queue ≡ drop k log)
      × (r.needs_iframe ≡ false))
    ⊎ (NoKey log lo (length log) × (r.c.queue ≡ []) × (r.needs_iframe ≡ ltb 0 (length log)))

-- What `Subscribe` promises of the state and the address that it returns.
pub record Subscribed (rb : RingBuffer) (log : List Frame) (rb' : RingBuffer) (id : ℕ)
    : Type 0 where
  pub valid : IsValid rb'
  pub logged : IsLog rb' log
  pub still_open : rb'.closed ≡ false
  pub joined : member id rb'.subs_slice ≡ true
  pub unused : member id rb.subs_slice ≡ false
  pub others : (j : ℕ) → j ≢ id → rb'.readers j ≡ rb.readers j
  pub preloaded : Preloaded log (length log - rb.capacity) (rb'.readers id)

register-Subscribed :
    (r : Reader) (rb : RingBuffer) (log : List Frame)
    → IsValid rb
    → IsLog rb log
    → rb.closed ≡ false
    → IsOpen rb.capacity r
    → Preloaded log (length log - rb.capacity) r
    → Subscribed rb log (register r rb).0 (register r rb).1
unfolding register
register-Subscribed r rb log v l o open_r p = record {
  valid = register-IsValid r rb v o open_r;
  logged = record {
    written = l.written;
    window = λ i h w. slot_congr rb _ i refl refl ∙ l.window i h w;
  };
  still_open = o;
  joined = ground (arith, member-append rb.next_reader rb.next_reader rb.subs_slice);
  unused = not-member-next rb v;
  others = λ j n. update_ne ℕ_discrete rb.readers rb.next_reader j r (λ e. n (sym e));
  preloaded =
      subst (Preloaded log (length log - rb.capacity))
        (sym (update_self ℕ_discrete rb.readers rb.next_reader r)) p;
}

length-drop_le : (k n : ℕ) (xs : List Frame) → length xs ≤ k + n → length (drop k xs) ≤ n
length-drop_le k n xs h = omega (arith, length-drop k xs)

subscribe_after :
    (rb : RingBuffer) (log : List Frame) (found : ℕ × Bool × ℕ)
    → IsValid rb
    → IsLog rb log
    → rb.closed ≡ false
    → find_last_iframe_locked rb ≡ found
    → Found log (length log - rb.capacity) found
    → (rb' : RingBuffer) × (id : ℕ) × (subscribe rb ≡ returns (rb', id)) × Subscribed rb log rb' id
unfolding fresh_reader
subscribe_after rb log (k, true, h) v l o e f =
    let c : Chan Frame = record (make_chan rb.capacity) { queue = drop k log } in
    let fits : length (drop k log) ≤ rb.capacity =
      length-drop_le k rb.capacity log (omega (arith, f.1.0)) in
    let sent =
      preload_lem (h - k) k rb log (make_chan rb.capacity) l (omega (arith, f.0, f.1.1))
        (omega (arith, f.1.0)) refl (omega (arith, f.0, f.1.0)) in
    (
      (register (fresh_reader false c) rb).0,
      (register (fresh_reader false c) rb).1,
      subscribe_found rb k h o e ∙ rw sent refl,
      register-Subscribed (fresh_reader false c) rb log v l o
          (record { is_open = refl; room = refl; fits = fits }) (inl (k, f.1, refl, refl)),
    )
subscribe_after rb log (k, false, h) v l o e f =
    let r : Reader = fresh_reader (ltb 0 h) (make_chan rb.capacity) in
    (
      (register r rb).0,
      (register r rb).1,
      subscribe_not_found rb k h o e,
      register-Subscribed r rb log v l o
          (record { is_open = refl; room = refl; fits = omega arith })
          (inr (f.2, refl, ap (ltb 0) f.0)),
    )

-- `Subscribe` on an open buffer never blocks on the preload and never panics; it registers a reader
-- that was not registered, changes no other reader, and preloads what `Preloaded` says.
pub subscribe-Subscribed :
    (rb : RingBuffer) (log : List Frame)
    → IsValid rb
    → IsLog rb log
    → rb.closed ≡ false
    → (rb' : RingBuffer) × (id : ℕ) × (subscribe rb ≡ returns (rb', id)) × Subscribed rb log rb' id
subscribe-Subscribed rb log v l o =
    subscribe_after rb log (find_last_iframe_locked rb) v l o refl
      (find_last_iframe_locked-Found rb log l)
