-- ===== src/Lib.antt =====
-- Hypothesis, the property-based testing library: the parts of its engine that the shrinker and the
-- database rest on. Paths are from the root of the repository; `internal/` stands for
-- hypothesis/src/hypothesis/internal/.
--
-- The engine records a test case as a sequence of choices. Every choice has an index among the
-- choices that its constraints permit, the simplest first (internal/conjecture/choice.py); strings
-- take the order of their characters from interval sets (internal/intervalsets.py). The shrinker
-- replaces choices by simpler ones: it works on lazy copies (internal/conjecture/junkdrawer.py),
-- proposes values by way of a shrinker object (internal/conjecture/shrinking/common.py), and finds how far
-- it can go with the adaptive searches of junkdrawer.py. The database stores the choices as
-- bytes (hypothesis/src/hypothesis/database.py). Results are kept in caches of bounded size
-- (internal/cache.py).
--
-- Files:
--   Common       names of the libraries, Boolean tests and lists over native numbers, integers
--                (Int), orders (Order), the equality of keys (Keys), dictionaries (Dict), and the
--                exceptions that the code raises (Result).
--   Search       find_integer and binary_search of junkdrawer.py. The predicate is asked in a
--                state and leaves one, since the predicates of the shrinker do. Bracket holds the
--                invariants of the probes, Pure the searches whose predicate has no state, Keeping what a
--                predicate keeps of its state.
--   Intervals    IntervalSet of intervalsets.py: construction, membership, indexing in both
--                directions, union, difference, intersection and the shrink order. Code points are
--                natural numbers; the intervals of a set are sorted, disjoint and not empty
--                (IsOrdered), which all operations keep.
--   Choice       choice.py: zigzag orders (Zigzag), index and value of integers and what is permitted
--                (Integer), and index and value of collections (Collection). The floating-point
--                logarithm of _index_to_size is a parameter, and its accuracy a named condition. Kinds
--                has the functions on choices of all kinds but floats; probabilities count units of
--                2 ** -1074, and 1 - 2 ** -64 is the float 1.0.
--   LazyCopy     LazySequenceCopy of junkdrawer.py. View is the list that a copy stands for;
--                Refines and Swap relate the operations to those of lists.
--   IntList      IntList of junkdrawer.py, which upgrades its array when an integer does not fit.
--   Replacing    replace_all of junkdrawer.py, against replacements made one by one (Backwards).
--   Shrinking    Shrinker of shrinking/common.py, over any order of the values: consider (Consider) and
--                run. Integer is shrinking/integer.py, with its searches (Steps, Minimal) and the
--                whole run (Whole); Ordering is shrinking/ordering.py, with the sequences it proposes
--                (Permutes), its two passes (Regions, Gaps) and the whole run (Whole).
--   Database     the serialisation of choices of database.py; struct, int.to_bytes and str.encode are
--                parameters with the laws that what they write can be read, and that an integer is
--                written where it fits the number of bytes (Lengths).
--   Stores       the databases of database.py that keep values in memory, only read, multiplex or write in
--                the background: what a write does to the contents (Contents), databases made of
--                databases (Merged), calls and worker rounds in any order (Background), and
--                listeners (Listening).
--   LruCache     LRUCache of cache.py, over the entries of its OrderedDict (Entries, Recency).
--   GenericCache GenericCache and LRUReusedCache of cache.py: a binary heap of entries with an index of
--                keys. Operations has the methods. The order of a heap (Heap), of the heap of a cache
--                (Edges) and what exchanging two entries does (Index, Exchange) give what bubbling up
--                (Rise) and down (Children) and balancing (Balance) restore; from these follow the
--                methods on keys that are there (Replace, Access, Methods), a new key with room (Append)
--                or without (Evict, Full, Insert), storing and pinning any key (Store), check_valid (Check), sequences of
--                calls (Runs), pins (Pins), the state of the subclass (Extra), which entry goes
--                (Policy, Reused), and what this means for the calls (Usage, Uses, Unused).
--   Floats       internal/conjecture/floats.py, on the bits of floats: the reversal of bits (Bits) and of
--                mantissas (Mantissa), the tables of exponents (Tables), and the encodings (RoundTrip).
--                The conversions between integers and floats are parameters.
--   Many         many of internal/conjecture/utils.py, which draws the elements of a collection: sizes and the
--                number of rejections (Bounds), and the spans it starts and stops (Nesting). The draw
--                is a parameter, of which it is assumed that a forced draw gives what is forced.
--   Dominance    dominance of internal/conjecture/pareto.py, with sort_key of shrinker.py (Order), what it
--                answers (Laws), and what that means (Better). Scores are a parameter.
--   Limiter      StackframeLimiter and ensure_free_stackframes of junkdrawer.py: contexts in any order
--                (Contexts). Exceptions leave a state, so an outcome is both. Which limits the
--                interpreter refuses is a parameter.
--   Optimiser    consider_new_data of internal/conjecture/optimiser.py, over any results that the loop may
--                propose (Climb). Scores are totally ordered by assumption, since NaN is refused.
-- Each component's Examples has runs and instances of its theorems.
--
-- Fuel: the upwards probe of find_integer takes fuel, since nothing bounds it but the predicate; the
-- bisections take the upper end of the bracket, the integer logarithm the number itself. The searches of
-- the shrinkers take two more than the current value or length, above which they refuse every number; the
-- rounds of the integer shrinker are one more than the initial value, since all rounds but the last make
-- it smaller; the regions of the order shrinker are at most one for each position. set_item of IntList
-- takes six rounds for the six word sizes, the loops of the serialisation one round for each byte, or for
-- each unit of the number; dominance calls itself at most once; bubbling up from an index takes at most
-- that many rounds, and bubbling down at most one for each entry. Where a theorem says that a result
-- is returned, the fuel is that of the definition or any that exceeds a stated bound.
--
-- Of the order shrinker, only the runs with full = False are modelled, the ones that the engine makes.
--
-- Not modelled: the engine's run loop, the shrink passes, the providers and the strategies, which
-- call user code, take time and randomness from outside and are glue for Python objects; arithmetic
-- and comparison of floats, and so the clampers and next_up of internal/floats.py; the databases
-- that write files or ask a network; the shrinkers of collections, bytes, strings and floats, and
-- the choice tree; the pareto front, which samples at random; reports, reflection and the vendored
-- pretty printer.
pub mod Common
pub mod Search
pub mod Intervals
pub mod Choice
pub mod LazyCopy
pub mod IntList
pub mod Shrinking
pub mod Database
pub mod Stores
pub mod LruCache
pub mod Many
pub mod Dominance
pub mod Limiter
pub mod Optimiser
pub mod GenericCache
pub mod Floats
pub mod Replacing
