-- ===== src/Controller/Admission/Codec.antt =====
-- A JSON in whose place stands a simple code that can be read back, for the instance.
use l2s_m.Base.{true, ap, ℕ, zero, suc, ◌≡◌, refl, List, [], ◌∷◌, ◌++◌, Text, length, drop, arith}
use l2s_m.Annotation.{NetworkAnnotation, Json}

take : ℕ → Text → Text
take zero s = []
take (suc n) [] = []
take (suc n) (c ∷ s) = c ∷ take n s

take-length : (t r : Text) → take (length t) (t ++ r) ≡ t
unfolding take
take-length [] r = refl
take-length (c ∷ t) r = ground (arith, take-length t r)

drop-length : (t r : Text) → drop (length t) (t ++ r) ≡ r
drop-length [] r = refl
drop-length (c ∷ t) r = drop-length t r

-- A text with its length before it, and a text behind it.
put : Text → Text → Text
put t rest = length t ∷ (t ++ rest)

got : Text → Text × Text
unfolding take
got [] = ([], [])
got (n ∷ s) = (take n s, drop n s)

got-put : (t rest : Text) → got (put t rest) ≡ (t, rest)
unfolding got put
got-put t rest = rw (take-length t rest, drop-length t rest)

put_all : List Text → Text → Text
put_all [] rest = rest
put_all (t ∷ ts) rest = put t (put_all ts rest)

got_all : ℕ → Text → List Text × Text
unfolding got
got_all zero s = ([], s)
got_all (suc n) s = let (t, s1) = got s in let (ts, s2) = got_all n s1 in (t ∷ ts, s2)

got_all-put_all :
    (ts : List Text) (rest : Text) → got_all (length ts) (put_all ts rest) ≡ (ts, rest)
unfolding got_all put_all
got_all-put_all [] rest = refl
got_all-put_all (t ∷ ts) rest = rw (got-put t (put_all ts rest), got_all-put_all ts rest)

put_one : NetworkAnnotation → Text → Text
unfolding put put_all
put_one a rest =
    put a.name
      (put a.namespace (put a.if_name (length a.ip_addresses ∷ put_all a.ip_addresses rest)))

count_of : Text → ℕ
count_of [] = 0
count_of (n ∷ s) = n

behind : Text → Text
behind [] = []
behind (n ∷ s) = s

got_one : Text → NetworkAnnotation × Text
unfolding got got_all count_of behind
got_one s =
    let (name, s1) = got s in
    let (namespace, s2) = got s1 in
    let (if_name, s3) = got s2 in
    let (ips, s4) = got_all (count_of s3) (behind s3) in
    (record { name = name; namespace = namespace; ip_addresses = ips; if_name = if_name }, s4)

got_one-put_one : (a : NetworkAnnotation) (rest : Text) → got_one (put_one a rest) ≡ (a, rest)
unfolding got_one put_one
got_one-put_one a rest =
    let s3 = length a.ip_addresses ∷ put_all a.ip_addresses rest in
    ground (
      arith,
      got-put a.name (put a.namespace (put a.if_name s3)),
      got-put a.namespace (put a.if_name s3),
      got-put a.if_name s3,
      got_all-put_all a.ip_addresses rest,
    )

put_list : List NetworkAnnotation → Text
put_list [] = []
put_list (a ∷ networks) = put_one a (put_list networks)

got_list : ℕ → Text → List NetworkAnnotation
got_list zero s = []
got_list (suc n) s = let (a, rest) = got_one s in a ∷ got_list n rest

got_list-put_list :
    (networks : List NetworkAnnotation) → got_list (length networks) (put_list networks) ≡ networks
unfolding got_list put_list
got_list-put_list [] = refl
got_list-put_list (a ∷ networks) =
    rw (got_one-put_one a (put_list networks), got_list-put_list networks)

unfoldable pub coded : Json
unfolding got_list put_list got_one put_one count_of behind
coded = record {
  marshal = λ networks. length networks ∷ put_list networks;
  unmarshal = λ t. (got_list (count_of t) (behind t), true);
}

pub coded_decodes :
    (networks : List NetworkAnnotation)
    → coded.unmarshal (coded.marshal networks) ≡ (networks, true)
unfolding coded
coded_decodes networks =
    ap (λ (ns : List NetworkAnnotation). (ns, true)) (got_list-put_list networks)
