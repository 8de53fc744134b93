-- ===== src/Tests/Summaries.antt =====
-- The summary of a remembered set of two words.
use larceny.Base.{ℕ, ◌≡◌, refl, List, [], ◌∷◌, Option, some, none, Bool, length, ltb, span}
use larceny.Pool.{hash_object, push_node, clear_pool, create_pool, next_segment}
use larceny.Remset.{rs_clear, rs_add_elem_new}
use larceny.Remset.Valid.{rs_elements}
use larceny.Summary.{
  rs_init_summary, rs_pool_next_chunk, summary_enumerate_dispatch, enumerate_remset,
}
use larceny.Summary.Visits.{call_all, let_through, enumerate_remset-visits}
use larceny.Tests.Remsets.{two_words, two_words-IsValid}

-- the scanner that collects the words, and a filter that lets the words below 50 through
abbrev collect : ℕ → List ℕ → List ℕ
collect w ws = w ∷ ws

abbrev below_50 : Option (ℕ → Bool)
below_50 = some (λ w. ltb w 50)

collects_both : enumerate_remset none collect two_words [] ≡ some (85 ∷ 21 ∷ [])
unfolding enumerate_remset summary_enumerate_dispatch rs_init_summary rs_pool_next_chunk
    rs_add_elem_new rs_clear push_node clear_pool create_pool next_segment hash_object span
collects_both = refl

enumerate_remset-visits_example :
    ((rs_init_summary two_words).entries ≡ length (rs_elements two_words))
    × (enumerate_remset below_50 collect two_words []
        ≡ some (call_all collect (let_through below_50 (rs_elements two_words)) []))
enumerate_remset-visits_example =
    enumerate_remset-visits below_50 collect two_words [] two_words-IsValid
