-- ===== src/Server/Membership/Bounds.antt =====
-- The cache and the set of lookups under way stay within their limits.
use express_botx.Common.{
  Bool, Bool-cases, List, Option, Option-cases, [], arith, false, inl, inr, leb, length, ltb, none,
  refl, some, ℕ, ◌<◌, ◌∷◌, ◌≡◌, ◌≤◌,
}
use express_botx.Server.Config.{get_key}
use express_botx.Server.Membership.{
  Answer, Checker, Entry, Options, Run, answered, check, checked, delete_call, delete_entry,
  errored, finish_lookup, initial, look_up, make_room, max_entries, max_inflight, sweep,
}
use express_botx.Text.{Str, elem, str_eq}
use express_botx.Text.Dedup.{IsDistinct}

length-delete_call-le : (k : Str) (ks : List Str) → length (delete_call k ks) ≤ length ks
unfolding delete_call
length-delete_call-le k [] = omega arith
length-delete_call-le k (j ∷ ks) = ground (arith, length-delete_call-le k ks)

elem-delete_call :
    (s k : Str) (ks : List Str) → elem s ks ≡ false → elem s (delete_call k ks) ≡ false
unfolding delete_call elem
elem-delete_call s k [] h = refl
elem-delete_call s k (j ∷ ks) h = ground (arith, elem-delete_call s k ks)

delete_call-IsDistinct : (k : Str) (ks : List Str) → IsDistinct ks → IsDistinct (delete_call k ks)
unfolding delete_call
delete_call-IsDistinct k [] h = tt
delete_call-IsDistinct k (j ∷ ks) (f, h) = elim (Bool-cases (str_eq j k)) [
  | inl e ↦ rw e (delete_call-IsDistinct k ks h)
  | inr e ↦ rw e (elem-delete_call j k ks f, delete_call-IsDistinct k ks h)
]

length-delete_entry-le : (k : Str) (m : List (Str × Entry)) → length (delete_entry k m) ≤ length m
unfolding delete_entry
length-delete_entry-le k [] = omega arith
length-delete_entry-le k ((j, e) ∷ m) = ground (arith, length-delete_entry-le k m)

length-make_room : (now : ℕ) (m : List (Str × Entry)) → length (make_room now m) < max_entries
unfolding sweep
length-make_room now m = ground arith

pub record IsBounded (m : Checker) : Type 0 where
  pub few_calls : length m.inflight ≤ max_inflight
  pub one_call : IsDistinct m.inflight
  pub few_entries : length m.cache ≤ max_entries

look_up-IsBounded : (key : Str) (m : Checker) → IsBounded m → IsBounded (look_up key m).1
unfolding look_up
look_up-IsBounded key m b = elim (Bool-cases (elem key m.inflight)) [
  | inl e ↦ rw e b
  | inr e ↦ elim (Bool-cases (leb max_inflight (length m.inflight))) [
    | inl f ↦ rw (e, f) b
    | inr f ↦
        rw (e, f)
          (record {
            few_calls = ground arith;
            one_call = (e, b.one_call);
            few_entries = b.few_entries;
          })
  ]
]

check-IsBounded : (key : Str) (now : ℕ) (m : Checker) → IsBounded m → IsBounded (check key now m).1
unfolding check
check-IsBounded key now m b = elim (Option-cases (get_key m.cache key)) [
  | inl e ↦ rw (e, check) (look_up-IsBounded key m b)
  | inr (en, e) ↦ elim (Bool-cases (ltb now en.expires)) [
    | inl f ↦ rw (e, check, f) b
    | inr f ↦
        rw (e, check, f)
          (look_up-IsBounded key _ (record {
            few_calls = b.few_calls;
            one_call = b.one_call;
            few_entries = omega (arith, length-delete_entry-le key m.cache, b.few_entries);
          }))
  ]
]

finish_lookup-IsBounded :
    (opts : Options) (key : Str) (answer : Option Bool) (now : ℕ) (m : Checker)
    → IsBounded m
    → IsBounded (finish_lookup opts key answer now m)
unfolding finish_lookup
finish_lookup-IsBounded opts key none now m b = record {
  few_calls = omega (arith, length-delete_call-le key m.inflight, b.few_calls);
  one_call = delete_call-IsDistinct key m.inflight b.one_call;
  few_entries = b.few_entries;
}
finish_lookup-IsBounded opts key (some is_member) now m b = record {
  few_calls = omega (arith, length-delete_call-le key m.inflight, b.few_calls);
  one_call = delete_call-IsDistinct key m.inflight b.one_call;
  few_entries =
      omega
        (arith, length-delete_entry-le key (make_room now m.cache), length-make_room now m.cache);
}

-- However requests and lookups interleave, there are at most 32 lookups under way, no two of them
-- for the same bot and chat, and the cache holds at most 10000 answers.
pub Run-IsBounded :
    {opts : Options} {h : List Answer} {t : ℕ} {m : Checker} → Run opts h t m → IsBounded m
Run-IsBounded (initial t) = record {
  few_calls = omega arith;
  one_call = tt;
  few_entries = omega arith;
}
Run-IsBounded (checked t' key l r) = check-IsBounded key t' _ (Run-IsBounded r)
Run-IsBounded {opts} (answered t' key is_member l i r) =
    finish_lookup-IsBounded opts key (some is_member) t' _ (Run-IsBounded r)
Run-IsBounded {opts} (errored t' key l i r) =
    finish_lookup-IsBounded opts key none t' _ (Run-IsBounded r)
