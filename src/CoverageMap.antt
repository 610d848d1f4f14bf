-- ===== src/CoverageMap.antt =====
-- The coverage map of fuzzer/src/coverage_map.c: a bitmap of edges and a chained hash set of paths.
-- A NULL pointer is `none`. Whether malloc returns a node is an argument of the call that asks.
pub mod Edges
pub mod Bitmap
pub mod Spec
pub mod Hashset
pub mod Marked
pub mod Refine
pub mod Verdict
use coverage_guided_fuzzer.Prelude.{
  ℕ, ◌*◌, ◌/◌, ◌%◌, ◌^◌, Bool, true, false, not, ◌&&◌, ◌||◌, Option, none, some, List, [], ◌∷◌,
  bit_or, bit_xor, ◌==◌, if◌then◌else◌, take, replicate,
}

abbrev pub coverage_map_size : ℕ
coverage_map_size = 4096

-- MAP_BYTES
abbrev pub map_bytes : ℕ
map_bytes = coverage_map_size / 8

abbrev pub table_size : ℕ
table_size = 65537

abbrev pub fnv_offset : ℕ
fnv_offset = 14695981039346656037

abbrev pub fnv_prime : ℕ
fnv_prime = 1099511628211

pub data Priority : Type 0 where
  no_prio low_prio high_prio : Priority

-- A chain is the list of the coverage_data of its nodes, first node first.
pub record CoverageMap : Type 0 where
  pub bitmap : List ℕ
  pub hashset : ℕ → List (List ℕ)

unfoldable pub fnv : ℕ → List ℕ → ℕ
fnv res [] = res
fnv res (c ∷ cs) = fnv (bit_xor res c * fnv_prime % 2 ^ 64) cs

-- `helpr_hash`: FNV-1a over the first `len` bytes.
unfoldable pub helpr_hash : List ℕ → ℕ → ℕ
unfolding fnv
helpr_hash data_bytes len = fnv fnv_offset (take len data_bytes)

-- `coverage_map_init`, with calloc's answer.
unfoldable pub coverage_map_init : Bool → Option CoverageMap
coverage_map_init allocated =
    if allocated then some (record { bitmap = replicate map_bytes 0; hashset = λ i. [] }) else none

-- The first loop of `coverage_map_add`: found_new_edge and the bitmap, byte by byte.
unfoldable pub mark : Bool → List ℕ → List ℕ → Bool × List ℕ
mark found [] cov = (found, [])
mark found (b ∷ bs) [] = (found, b ∷ bs)
mark found (b ∷ bs) (c ∷ cs) =
    let (found', bs') = mark (found || not (bit_or b c == b)) bs cs in (found', bit_or b c ∷ bs')

-- `memcmp(a, b, MAP_BYTES) == 0` of two arrays of MAP_BYTES bytes.
unfoldable pub same_bytes : List ℕ → List ℕ → Bool
same_bytes [] [] = true
same_bytes [] (b ∷ bs) = false
same_bytes (a ∷ as') [] = false
same_bytes (a ∷ as') (b ∷ bs) = (a == b) && same_bytes as' bs

-- The walk along a chain: whether some node holds these bytes.
unfoldable pub in_chain : List (List ℕ) → List ℕ → Bool
unfolding same_bytes
in_chain [] cov = false
in_chain (cur ∷ next) cov = if same_bytes cur cov then true else in_chain next cov

unfoldable pub bucket : List ℕ → ℕ
unfolding helpr_hash
bucket cov = helpr_hash cov map_bytes % table_size

abbrev pub push_node : (ℕ → List (List ℕ)) → ℕ → List ℕ → ℕ → List (List ℕ)
push_node hashset ind cov i = if i == ind then cov ∷ hashset i else hashset i

abbrev pub priority : Bool → Bool → Priority
priority found_new_edge found_new_path =
    if found_new_edge then high_prio else if found_new_path then low_prio else no_prio

-- `coverage_map_add` past its test for NULL. `allocated` is malloc's answer, if it is asked.
unfoldable pub add : Bool → CoverageMap → List ℕ → Priority × CoverageMap
add allocated m cov =
    let (found_new_edge, bitmap) = mark false m.bitmap cov in
    let hash_ind : ℕ = bucket cov in
    if in_chain (m.hashset hash_ind) cov
    then (priority found_new_edge false, record m { bitmap = bitmap })
    else if allocated
    then (
      priority found_new_edge true,
      record { bitmap = bitmap; hashset = push_node m.hashset hash_ind cov },
    )
    else (no_prio, record m { bitmap = bitmap })

-- `coverage_map_add`
unfoldable pub coverage_map_add :
    Bool → Option CoverageMap → Option (List ℕ) → Priority × Option CoverageMap
coverage_map_add allocated none cov = (no_prio, none)
coverage_map_add allocated (some m) none = (no_prio, some m)
coverage_map_add allocated (some m) (some cov) = let (p, m') = add allocated m cov in (p, some m')
