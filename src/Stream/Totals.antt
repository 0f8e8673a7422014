-- ===== src/Stream/Totals.antt =====
-- The lifetime totals of the manager.
use native.Mathlib.Omega.{arith}
use mathlib.Core.Option.{some-injective, none-ne-some}
use ruseon_core.Common.{
  ℕ, ◌≡◌, refl, sym, ap, ◌∙◌, true, none, some, [], ◌∷◌, inl, inr, Option-cases,
}
use ruseon_core.Common.Bytes.{Bytes, bytes_discrete}
use ruseon_core.Common.Dict.{
  Dict, lookup, erase, erase_here, erase_other, lookup_here, lookup_other,
}
use ruseon_core.Common.Go.{add64}
use ruseon_core.Stream.{
  Stats, Stream, Manager, PipelineConfig, add_stats, sum_stats, get_stream, get_cumulative_stats,
  remove_stream, upsert_stream,
}

add64_swap : (a b c : ℕ) → add64 (add64 a b) c ≡ add64 (add64 a c) b
add64_swap a b c = omega arith

add_stats-swap : (s t u : Stats) → add_stats (add_stats s t) u ≡ add_stats (add_stats s u) t
unfolding add_stats
add_stats-swap s t u = λ i. record {
  frames = add64_swap s.frames t.frames u.frames i;
  bytes_received = add64_swap s.bytes_received t.bytes_received u.bytes_received i;
  bytes_sent = add64_swap s.bytes_sent t.bytes_sent u.bytes_sent i;
  drops = add64_swap s.drops t.drops u.drops i;
  reconnects = add64_swap s.reconnects t.reconnects u.reconnects i;
}

-- No ID occurs twice among the keys.
unfoldable pub IsDistinct : Dict Bytes Stream → Type 0
IsDistinct [] = Unit
IsDistinct ((k, st) ∷ m) = (lookup bytes_discrete k m ≡ none) × IsDistinct m

erase-none :
    (id : Bytes) (m : Dict Bytes Stream)
    → lookup bytes_discrete id m ≡ none
    → erase bytes_discrete id m ≡ m
unfolding lookup erase
erase-none id [] h = refl
erase-none id ((k, st) ∷ m) h = elim (bytes_discrete k id) [
  | yes same ↦ absurd (none-ne-some st (sym h ∙ lookup_here bytes_discrete k id st m same))
  | no other ↦
      erase_other bytes_discrete k id st m other
      ∙ ap (◌∷◌ (k, st)) (erase-none id m (sym (lookup_other bytes_discrete k id st m other) ∙ h))
]

sum_stats-add :
    (s t : Stats) (m : Dict Bytes Stream)
    → sum_stats (add_stats s t) m ≡ add_stats (sum_stats s m) t
unfolding sum_stats
sum_stats-add s t [] = refl
sum_stats-add s t ((k, st) ∷ m) =
    ap (λ x. sum_stats x m) (add_stats-swap s t st.stats) ∙ sum_stats-add (add_stats s st.stats) t m

sum_stats-erase :
    (s : Stats) (id : Bytes) (st : Stream) (m : Dict Bytes Stream)
    → IsDistinct m
    → lookup bytes_discrete id m ≡ some st
    → add_stats (sum_stats s (erase bytes_discrete id m)) st.stats ≡ sum_stats s m
unfolding sum_stats lookup erase IsDistinct
sum_stats-erase s id st [] d h = ground (arith, h)
sum_stats-erase s id st ((k, x) ∷ m) (fresh, d) h = elim (bytes_discrete k id) [
  | yes same ↦
      let e : x ≡ st = some-injective x st (sym (lookup_here bytes_discrete k id x m same) ∙ h) in
      let gone : erase bytes_discrete id ((k, x) ∷ m) ≡ m =
        erase_here bytes_discrete k id x m same
        ∙ erase-none id m (ap (λ i. lookup bytes_discrete i m) (sym same) ∙ fresh) in
      ap (λ l. add_stats (sum_stats s l) st.stats) gone
      ∙ sym (sum_stats-add s st.stats m)
      ∙ ap (λ y. sum_stats (add_stats s y.stats) m) (sym e)
  | no other ↦
      ap (λ l. add_stats (sum_stats s l) st.stats) (erase_other bytes_discrete k id x m other)
      ∙ sum_stats-erase (add_stats s x.stats) id st m d
          (sym (lookup_other bytes_discrete k id x m other) ∙ h)
]

-- Removing a stream does not change the lifetime totals: what the stream counted goes to the counters
-- of the manager.
pub remove_stream-get_cumulative_stats :
    (id : Bytes) (m : Manager)
    → IsDistinct m.streams
    → get_cumulative_stats (remove_stream id m) ≡ get_cumulative_stats m
unfolding get_cumulative_stats remove_stream
remove_stream-get_cumulative_stats id m d = elim (Option-cases (get_stream id m)) [
  | inl e ↦ ground (arith, e)
  | inr (st, e) ↦
      rw (e, remove_stream)
        (sum_stats-add m.cumulative st.stats (erase bytes_discrete id m.streams)
          ∙ sum_stats-erase m.cumulative id st m.streams d e)
]

-- A stream that is disabled takes its counters out of the lifetime totals, unlike one that is
-- removed: the totals before are the totals after with the counters of the stopped stream added.
pub upsert_stream-get_cumulative_stats :
    (id : Bytes) (cfg : PipelineConfig) (m : Manager) (st : Stream)
    → IsDistinct m.streams
    → get_stream id m ≡ some st
    → get_cumulative_stats m
      ≡ add_stats (get_cumulative_stats (upsert_stream id cfg true m)) st.stats
unfolding get_cumulative_stats upsert_stream
upsert_stream-get_cumulative_stats id cfg m st d e =
    rw (e, upsert_stream) (sym (sum_stats-erase m.cumulative id st m.streams d e))
