-- ===== src/Udp/Sockets.antt =====
-- The sockets of a UDP agent that are free, and `get_socket` (agents/tp_udp.c:52-65), which takes one.
use lancet_tool.Base.{
  some_inj, none≢some, ℕ, zero, suc, ◌+◌, ◌%◌, ◌^◌, ◌==◌, ◌≤◌, ◌≡◌, refl, ap, List, [], ◌∷◌, Option,
  some, none, get_elem?, set, ok, fault, Fault, true, false, arith, if◌then◌else◌,
}
use lancet_tool.Base.Each.{Each, Each-ok, Each-fault, Each-if}
use lancet_tool.EventLoop.{item_at}
use lancet_tool.Udp.{UdpSocket, get_socket}

abbrev pub one_if_free : UdpSocket → ℕ
one_if_free s = if s.taken then 0 else 1

-- The sockets that wait for no response.
abbrev pub free : List UdpSocket → ℕ
free [] = 0
free (s ∷ ss) = one_if_free s + free ss

one_if_free-le : (s : UdpSocket) → one_if_free s ≤ 1
one_if_free-le s = ground arith

pub free-set : (ss : List UdpSocket) (i : ℕ) (s : UdpSocket) → free (set ss i s) ≤ free ss + 1
free-set [] i s = omega arith
free-set (x ∷ xs) zero s = omega (arith, one_if_free-le s)
free-set (x ∷ xs) (suc i) s = omega (arith, free-set xs i s)

pub free-replace :
    (ss : List UdpSocket) (i : ℕ) (s s' : UdpSocket)
    → get_elem? ss i ≡ some s
    → free (set ss i s') + one_if_free s ≡ free ss + one_if_free s'
free-replace [] i s s' at = absurd (none≢some at)
free-replace (x ∷ xs) zero s s' at = omega (arith, ap one_if_free (some_inj at))
free-replace (x ∷ xs) (suc i) s s' at = omega (arith, free-replace xs i s s' at)

abbrev pub At : List UdpSocket → ℕ → UdpSocket → Type 0
At ss i s = get_elem? ss i ≡ some s

pub item_at-At : (ss : List UdpSocket) (i : ℕ) → Each (At ss i) (item_at ss i)
unfolding item_at
item_at-At [] i = Each-fault _ Fault.out_of_bounds
item_at-At (x ∷ xs) zero = Each-ok _ x refl
item_at-At (x ∷ xs) (suc i) = item_at-At xs i

-- A socket that is picked was free, and is not any more.
abbrev pub Picked : ℕ → Option ℕ × List UdpSocket × ℕ → Type 0
Picked n (none, ss, k) = free ss ≤ n
Picked n (some i, ss, k) = free ss + 1 ≤ n

pub get_socket-Picked :
    (n : ℕ) (ss : List UdpSocket) (k : ℕ) → Each (Picked (free ss)) (get_socket n ss k)
unfolding get_socket
get_socket-Picked n ss k =
    Each-if (n == 0) (λ zero_sockets. Each-fault _ Fault.div_by_zero)
      (λ some_sockets. found (get_elem? ss (k % n)) refl)
  where
    found :
        (o : Option UdpSocket)
        → get_elem? ss (k % n) ≡ o
        → Each (Picked (free ss)) (elim o [
          | none ↦ fault Fault.out_of_bounds
          | some c ↦
              if c.taken
              then ok (none, ss, (k + 1) % 2 ^ 32)
              else ok (some (k % n), set ss (k % n) (record c { taken = true }), (k + 1) % 2 ^ 32)
        ])
    found none at = Each-fault _ Fault.out_of_bounds
    found (some c) at =
        Each-if c.taken (λ busy. Each-ok _ _ (omega arith)) (λ idle. Each-ok _ _ (taken idle))
      where
        taken : c.taken ≡ false → free (set ss (k % n) (record c { taken = true })) + 1 ≤ free ss
        taken idle =
            let was : one_if_free c ≡ 1 = rw idle refl in
            omega (arith, was, free-replace ss (k % n) c (record c { taken = true }) at)
