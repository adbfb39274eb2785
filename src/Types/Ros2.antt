-- ===== src/Types/Ros2.antt =====
-- The names that ROS 2 gives to the topics of a service.
use dds_router.Base.{
  ℕ, suc, ◌+◌, ◌^◌, ◌<◌, ◌≡◌, refl, sym, subst, Bool, true, ◌&&◌, some, [], ◌∷◌, ◌++◌, arith, Text,
  codes, length, length-append, find_text, rfind_text, starts_with, later_or, position, ◌==◌,
}
use dds_router.Types.Topic.{DdsTopic}
use dds_router.Types.Rpc.{
  request_prefix, request_str, reply_prefix, reply_str, response_str, ends_at, is_request_topic,
  is_reply_topic,
}
use dds_router.Types.Names.{rfind_text-short, find_text_first}

starts_with_refl : (p : Text) → starts_with p p ≡ true
unfolding starts_with
starts_with_refl [] = refl
starts_with_refl (c ∷ p) = ground (arith, starts_with_refl p)

-- A pattern at the end of a text is the last one in it.
rfind_text-end : (c : ℕ) (p s : Text) → rfind_text (c ∷ p) (s ++ (c ∷ p)) ≡ some (length s)
unfolding rfind_text later_or
rfind_text-end c p [] =
    ground (arith, rfind_text-short (c ∷ p) p (omega arith), starts_with_refl (c ∷ p))
rfind_text-end c p (d ∷ s) = ground (arith, rfind_text-end c p s)

-- What is found in a text is found further on when something stands before it.
rfind_text-before :
    (p t s : Text) → rfind_text p t ≡ some 0 → rfind_text p (s ++ t) ≡ some (length s)
unfolding rfind_text later_or
rfind_text-before p t [] h = h
rfind_text-before p t (d ∷ s) h = ground (arith, rfind_text-before p t s h)

request_last : (c : ℕ) → rfind_text request_str (request_str ++ c ∷ []) ≡ some 0
unfolding rfind_text starts_with later_or
request_last c = ground arith

response_last : (c : ℕ) → rfind_text response_str (response_str ++ c ∷ []) ≡ some 0
unfolding rfind_text starts_with later_or
response_last c = ground arith

ends_at-end :
    (c : ℕ) (p s : Text)
    → length s + suc (length p) < 2 ^ 64
    → ends_at (s ++ (c ∷ p)) (c ∷ p) 0 ≡ true
unfolding ends_at
ends_at-end c p s h = ground (arith, rfind_text-end c p s, length-append s (c ∷ p))

ends_at-before :
    (p s : Text) (c : ℕ)
    → rfind_text p (p ++ c ∷ []) ≡ some 0
    → length s + length p + 1 < 2 ^ 64
    → ends_at (s ++ (p ++ c ∷ [])) p 1 ≡ true
unfolding ends_at
ends_at-before p s c r h = ground (
  arith,
  rfind_text-before p (p ++ c ∷ []) s r,
  length-append s (p ++ c ∷ []),
  length-append p (c ∷ []),
)

prefix_first : (p x s : Text) → s ≡ p ++ x → (position (find_text p s) == 0) ≡ true
unfolding starts_with
prefix_first p x s e =
    ground (arith, find_text_first p s (subst (λ y. starts_with p y ≡ true) (sym e) (go p x)))
  where
    go : (p x : Text) → starts_with p (p ++ x) ≡ true
    go [] x = refl
    go (c ∷ p) x = ground (arith, go p x)

all_three : (a b c : Bool) → a ≡ true → b ≡ true → c ≡ true → (a && (b && c)) ≡ true
all_three a b c h k l = ground arith

-- A topic named `rq/<service>Request` with a type named `<type>Request` and one more octet is the
-- request topic of a service, and one named `rr/<service>Reply` with `<type>Response` and one more
-- octet is a reply topic, as long as the names are shorter than 2^64 octets.
pub is_request_topic_ros2 :
    (service type : Text) (last : ℕ) (request reply : DdsTopic)
    → request.topic_name ≡ request_prefix ++ (service ++ request_str)
    → request.type_name ≡ type ++ (request_str ++ last ∷ [])
    → reply.topic_name ≡ reply_prefix ++ (service ++ reply_str)
    → reply.type_name ≡ type ++ (response_str ++ last ∷ [])
    → length service + 10 < 2 ^ 64
    → length type + 9 < 2 ^ 64
    → (is_request_topic request ≡ true) × (is_reply_topic reply ≡ true)
unfolding is_request_topic is_reply_topic
is_request_topic_ros2 service type last request reply e f g h k l = (
  all_three _ _ _ (prefix_first request_prefix (service ++ request_str) request.topic_name e)
      (subst (λ y. ends_at y request_str 0 ≡ true) (sym e)
        (ends_at-end 82 (codes "equest") (request_prefix ++ service) (omega (arith, k))))
      (subst (λ y. ends_at y request_str 1 ≡ true) (sym f)
        (ends_at-before request_str type last (request_last last) (omega (arith, l)))),
  all_three _ _ _ (prefix_first reply_prefix (service ++ reply_str) reply.topic_name g)
      (subst (λ y. ends_at y reply_str 0 ≡ true) (sym g)
        (ends_at-end 82 (codes "eply") (reply_prefix ++ service) (omega (arith, k))))
      (subst (λ y. ends_at y response_str 1 ≡ true) (sym h)
        (ends_at-before response_str type last (response_last last) (omega (arith, l)))),
)
