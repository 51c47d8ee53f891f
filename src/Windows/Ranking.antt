-- ===== src/Windows/Ranking.antt =====
-- crates/netpland/src/platform/windows.rs: the comparison of networks that `sort_by` takes, a strict order.
use netplan.Base.{
  ◌≡◌, refl, ap, ◌∙◌, sym, ==_iff, ℕ, arith, ◌==◌, ltb, Bool, true, false, [], ◌∷◌, Text, text_eq,
  text_eq_sound, text_eq_refl, if◌then◌else◌, ◌&&◌, not,
}
use netplan.Windows.Scans.{text_lt, network_before}
use netplan.Model.{WifiNetwork}

text_lt_trans : (a b c : Text) → text_lt b a ≡ false → text_lt c b ≡ false → text_lt c a ≡ false
text_lt_trans [] b [] p q = refl
text_lt_trans [] [] (z ∷ c) p q = q
text_lt_trans [] (y ∷ b) (z ∷ c) p q = refl
text_lt_trans (x ∷ a) [] c p q = absurd (ground arith)
text_lt_trans (x ∷ a) (y ∷ b) [] p q = absurd (ground arith)
text_lt_trans (x ∷ a) (y ∷ b) (z ∷ c) p q = let rest = text_lt_trans a b c in ground arith

text_lt_antisym : (a b : Text) → text_lt a b ≡ false → text_lt b a ≡ false → text_eq a b ≡ true
unfolding text_eq
text_lt_antisym [] [] p q = refl
text_lt_antisym [] (y ∷ b) p q = absurd (ground arith)
text_lt_antisym (x ∷ a) [] p q = absurd (ground arith)
text_lt_antisym (x ∷ a) (y ∷ b) p q = let rest = text_lt_antisym a b in ground arith

-- A comparison by a first key, and by further ones `s` where the first are equal: of three items
-- `e1`, `l1` compare the second with the first, `e2`, `l2` the third with the second, and `e3`, `l3`
-- the third with the first.
lexicographic :
    (e1 e2 e3 l1 l2 l3 s1 s2 s3 : Bool)
    → (e1 ≡ true → e2 ≡ true → e3 ≡ true)
    → (e3 ≡ true → e1 ≡ true → e2 ≡ true)
    → (e3 ≡ true → e2 ≡ true → e1 ≡ true)
    → (e1 ≡ true → l3 ≡ l2)
    → (e2 ≡ true → l3 ≡ l1)
    → (e3 ≡ true → l1 ≡ false → l2 ≡ false → e1 ≡ true)
    → (l1 ≡ false → l2 ≡ false → l3 ≡ false)
    → (s1 ≡ false → s2 ≡ false → s3 ≡ false)
    → (if not e1 then l1 else s1) ≡ false
    → (if not e2 then l2 else s2) ≡ false
    → (if not e3 then l3 else s3) ≡ false
lexicographic true true true l1 l2 l3 s1 s2 s3 a b c d e f g h p q = h p q
lexicographic true true false l1 l2 l3 s1 s2 s3 a b c d e f g h p q = absurd (ground arith)
lexicographic true false true l1 l2 l3 s1 s2 s3 a b c d e f g h p q = absurd (ground arith)
lexicographic true false false l1 l2 l3 s1 s2 s3 a b c d e f g h p q = d refl ∙ q
lexicographic false true true l1 l2 l3 s1 s2 s3 a b c d e f g h p q = absurd (ground arith)
lexicographic false true false l1 l2 l3 s1 s2 s3 a b c d e f g h p q = e refl ∙ p
lexicographic false false true l1 l2 l3 s1 s2 s3 a b c d e f g h p q =
    absurd (let same = f refl p q in ground arith)
lexicographic false false false l1 l2 l3 s1 s2 s3 a b c d e f g h p q = g p q

equal_texts_trans : (a b c : Text) → text_eq a b ≡ true → text_eq b c ≡ true → text_eq a c ≡ true
equal_texts_trans a b c h k = rw (text_eq_sound a b h) k

equal_texts_sym : (a b : Text) → text_eq a b ≡ true → text_eq b a ≡ true
equal_texts_sym a b h = rw (text_eq_sound a b h) (text_eq_refl b)

-- The order by a name, then by `s`
by_name_trans :
    (a b c : Text) (s1 s2 s3 : Bool)
    → (s1 ≡ false → s2 ≡ false → s3 ≡ false)
    → (if not (text_eq b a) then text_lt b a else s1) ≡ false
    → (if not (text_eq c b) then text_lt c b else s2) ≡ false
    → (if not (text_eq c a) then text_lt c a else s3) ≡ false
by_name_trans a b c s1 s2 s3 =
    lexicographic (text_eq b a) (text_eq c b) (text_eq c a) (text_lt b a) (text_lt c b)
      (text_lt c a) s1 s2 s3 (λ ba cb. equal_texts_trans c b a cb ba)
      (λ ca ba. equal_texts_trans c a b ca (equal_texts_sym b a ba))
      (λ ca cb. equal_texts_trans b c a (equal_texts_sym c b cb) ca)
      (λ ba. ap (text_lt c) (sym (text_eq_sound b a ba)))
      (λ cb. ap (λ t. text_lt t a) (text_eq_sound c b cb))
      (λ ca lba lcb.
        text_lt_antisym b a lba (ap (λ t. text_lt t b) (sym (text_eq_sound c a ca)) ∙ lcb))
      (text_lt_trans a b c)

by_signal_trans :
    (a b c : ℕ) (s1 s2 s3 : Bool)
    → (s1 ≡ false → s2 ≡ false → s3 ≡ false)
    → (if not (b == a) then ltb a b else s1) ≡ false
    → (if not (c == b) then ltb b c else s2) ≡ false
    → (if not (c == a) then ltb a c else s3) ≡ false
by_signal_trans a b c s1 s2 s3 =
    lexicographic (b == a) (c == b) (c == a) (ltb a b) (ltb b c) (ltb a c) s1 s2 s3
      (λ ba cb. ground arith) (λ ca ba. ground arith) (λ ca cb. ground arith)
      (λ ba. ap (λ n. ltb n c) (sym ((==_iff b a).0 ba))) (λ cb. ap (ltb a) ((==_iff c b).0 cb))
      (λ ca ab bc. ground arith) (λ ab bc. ground arith)

by_connected_trans :
    (a b c : Bool) (s1 s2 s3 : Bool)
    → (s1 ≡ false → s2 ≡ false → s3 ≡ false)
    → (if b && not a then true else if a && not b then false else s1) ≡ false
    → (if c && not b then true else if b && not c then false else s2) ≡ false
    → (if c && not a then true else if a && not c then false else s3) ≡ false
by_connected_trans true true true s1 s2 s3 s p q = s p q
by_connected_trans true true false s1 s2 s3 s p q = refl
by_connected_trans true false true s1 s2 s3 s p q = absurd (ground arith)
by_connected_trans true false false s1 s2 s3 s p q = refl
by_connected_trans false true true s1 s2 s3 s p q = absurd (ground arith)
by_connected_trans false true false s1 s2 s3 s p q = absurd (ground arith)
by_connected_trans false false true s1 s2 s3 s p q = absurd (ground arith)
by_connected_trans false false false s1 s2 s3 s p q = s p q

pub network_before_trans :
    (x y z : WifiNetwork)
    → network_before y x ≡ false
    → network_before z y ≡ false
    → network_before z x ≡ false
unfolding network_before
network_before_trans x y z = by_connected_trans x.connected y.connected z.connected _ _ _ (
    by_signal_trans x.signal_quality y.signal_quality z.signal_quality _ _ _
      (by_name_trans x.ssid y.ssid z.ssid _ _ _ (λ p q. ground arith)))

text_lt_asym : (a b : Text) → text_lt a b ≡ true → text_lt b a ≡ false
text_lt_asym [] [] h = refl
text_lt_asym [] (y ∷ b) h = refl
text_lt_asym (x ∷ a) [] h = absurd (ground arith)
text_lt_asym (x ∷ a) (y ∷ b) h = let rest = text_lt_asym a b in ground arith

lexicographic_asym :
    (e1 e2 l1 l2 s1 s2 : Bool)
    → (e1 ≡ true → e2 ≡ true)
    → (e2 ≡ true → e1 ≡ true)
    → (l1 ≡ true → l2 ≡ false)
    → (s1 ≡ true → s2 ≡ false)
    → (if not e1 then l1 else s1) ≡ true
    → (if not e2 then l2 else s2) ≡ false
lexicographic_asym true true l1 l2 s1 s2 a b c d h = d h
lexicographic_asym true false l1 l2 s1 s2 a b c d h = absurd (ground arith)
lexicographic_asym false true l1 l2 s1 s2 a b c d h = absurd (ground arith)
lexicographic_asym false false l1 l2 s1 s2 a b c d h = c h

by_connected_asym :
    (a b s1 s2 : Bool)
    → (s1 ≡ true → s2 ≡ false)
    → (if a && not b then true else if b && not a then false else s1) ≡ true
    → (if b && not a then true else if a && not b then false else s2) ≡ false
by_connected_asym true true s1 s2 s h = s h
by_connected_asym true false s1 s2 s h = refl
by_connected_asym false true s1 s2 s h = absurd (ground arith)
by_connected_asym false false s1 s2 s h = s h

pub network_before_asym :
    (x y : WifiNetwork) → network_before x y ≡ true → network_before y x ≡ false
unfolding network_before
network_before_asym x y = by_connected_asym x.connected y.connected _ _ (
    lexicographic_asym (x.signal_quality == y.signal_quality) (y.signal_quality == x.signal_quality)
      _ _ _ _ (λ e. ground arith) (λ e. ground arith) (λ l. ground arith)
      (lexicographic_asym (text_eq x.ssid y.ssid) (text_eq y.ssid x.ssid) _ _ _ _
        (equal_texts_sym x.ssid y.ssid) (equal_texts_sym y.ssid x.ssid) (text_lt_asym x.ssid y.ssid)
        (λ l. ground arith)))
