-- ===== src/Upsmc/Client/Pooled.antt =====
-- client/client_pool.rs: a call on a client of the pool, with its second attempt.
use nut_webgui.Prelude.{ℕ, refl, ◌≡◌, if◌then◌else◌, [], ◌∷◌, ◌++◌, List, Bool, true, false}
use nut_webgui.Upsmc.Error.{
  ParseError, Position, ProtocolError, Error, Result, ok, err, io_error, parse_error,
  protocol_error, connection_pool_closed, empty_response, request_timeout,
}

-- What becomes of a client behind its call.
pub data Use (C : Type 0) : Type 0 where
  released dropped : C → Use C

-- The errors behind which a client is not put back.
unfoldable pub is_dropped : Error → Bool
is_dropped (io_error kind) = true
is_dropped (parse_error e position) = false
is_dropped (protocol_error e) = false
is_dropped connection_pool_closed = true
is_dropped empty_response = true
is_dropped request_timeout = true

-- The errors behind which the call is made again.
unfoldable pub is_retried : Error → Bool
is_retried (io_error kind) = true
is_retried (parse_error e position) = false
is_retried (protocol_error e) = false
is_retried connection_pool_closed = false
is_retried empty_response = true
is_retried request_timeout = true

module _ {A C : Type 0} (call : C → Result A × C) where
  -- `@action`; a client in whose call a panic unwinds is dropped, too.
  unfoldable pub settle : Result A × C → Result A × List (Use C)
  settle (ok a, c) = (ok a, released c ∷ [])
  settle (err e, c) = (err e, (if is_dropped e then dropped c else released c) ∷ [])
  settle (Result.panic, c) = (Result.panic, dropped c ∷ [])
  settle (Result.diverged, c) = (Result.diverged, dropped c ∷ [])

  unfoldable pub action : Result C → Result A × List (Use C)
  action (ok c) = settle (call c)
  action (err e) = (err e, [])
  action Result.panic = (Result.panic, [])
  action Result.diverged = (Result.diverged, [])

  -- A failed call is made again on a client that `get_checked` has tried out.
  unfoldable pub again : Result C → Result A × List (Use C) → Result A × List (Use C)
  again checked (ok a, uses) = (ok a, uses)
  again checked (err e, uses) =
      let (r, more) = action checked in if is_retried e then (r, uses ++ more) else (err e, uses)
  again checked (Result.panic, uses) = (Result.panic, uses)
  again checked (Result.diverged, uses) = (Result.diverged, uses)

  -- `impl_pooled_call!`: what `get` and `get_checked` return is given.
  unfoldable pub pooled_call : Result C → Result C → Result A × List (Use C)
  pooled_call (ok c) checked = again checked (action (ok c))
  pooled_call (err e) checked = (err e, [])
  pooled_call Result.panic checked = (Result.panic, [])
  pooled_call Result.diverged checked = (Result.diverged, [])

-- The errors of a connection that does not answer.
pub data IsLost : Error → Type 0 where
  io : (kind : ℕ) → IsLost (io_error kind)
  no_answer : IsLost empty_response
  no_time : IsLost request_timeout

-- The errors that are read from an answer of upsd.
pub data IsAnswered : Error → Type 0 where
  unreadable : (e : ParseError) (position : Position) → IsAnswered (parse_error e position)
  refused : (e : ProtocolError) → IsAnswered (protocol_error e)

-- What becomes of a client whose call ends with this result.
pub data Fate {A C : Type 0} (c : C) : Result A → Use C → Type 0 where
  done : (a : A) → Fate c (ok a) (released c)
  answered : {e : Error} → IsAnswered e → Fate c (err e) (released c)
  lost : {e : Error} → IsLost e → Fate c (err e) (dropped c)
  closed : Fate c (err connection_pool_closed) (dropped c)
  panicked : Fate c Result.panic (dropped c)
  diverged : Fate c Result.diverged (dropped c)

-- The results behind which no second attempt is made.
pub data IsFinal {A : Type 0} : Result A → Type 0 where
  done : (a : A) → IsFinal (ok a)
  answered : {e : Error} → IsAnswered e → IsFinal (err e)
  closed : IsFinal (err connection_pool_closed)
  panicked : IsFinal Result.panic
  diverged : IsFinal Result.diverged

module _ {A C : Type 0} (call : C → Result A × C) where
  -- An attempt with what the pool gives for it: its result, and what becomes of the client.
  pub data Attempt : Result C → Result A → List (Use C) → Type 0 where
    made :
        {c after : C} {r : Result A} {u : Use C}
        → call c ≡ (r, after)
        → Fate after r u
        → Attempt (ok c) r (u ∷ [])
    no_client : (e : Error) → Attempt (err e) (err e) []
    panicked : Attempt Result.panic Result.panic []
    diverged : Attempt Result.diverged Result.diverged []

  -- A call on the pool, from what it gives for the first attempt and would give for the second.
  pub data Pooled (first checked : Result C) : Result A → List (Use C) → Type 0 where
    no_client : {r : Result A} → Attempt first r [] → Pooled first checked r []
    once :
        {r : Result A} {u : Use C}
        → Attempt first r (u ∷ [])
        → IsFinal r
        → Pooled first checked r (u ∷ [])
    twice :
        {r : Result A} {e : Error} {u : Use C} {us : List (Use C)}
        → Attempt first (err e) (u ∷ [])
        → IsLost e
        → Attempt checked r us
        → Pooled first checked r (u ∷ us)

  settle-Attempt :
      (c : C) (p : Result A × C) → call c ≡ p → Attempt (ok c) (settle call p).0 (settle call p).1
  unfolding settle is_dropped
  settle-Attempt c (ok a, after) h = made h (Fate.done a)
  settle-Attempt c (err (io_error kind), after) h = made h (lost (io kind))
  settle-Attempt c (err (parse_error e position), after) h =
      made h (Fate.answered (unreadable e position))
  settle-Attempt c (err (protocol_error e), after) h = made h (Fate.answered (refused e))
  settle-Attempt c (err connection_pool_closed, after) h = made h Fate.closed
  settle-Attempt c (err empty_response, after) h = made h (lost no_answer)
  settle-Attempt c (err request_timeout, after) h = made h (lost no_time)
  settle-Attempt c (Result.panic, after) h = made h Fate.panicked
  settle-Attempt c (Result.diverged, after) h = made h Fate.diverged

  action-Attempt : (got : Result C) → Attempt got (action call got).0 (action call got).1
  unfolding action
  action-Attempt (ok c) = settle-Attempt c (call c) refl
  action-Attempt (err e) = Attempt.no_client e
  action-Attempt Result.panic = Attempt.panicked
  action-Attempt Result.diverged = Attempt.diverged

  again-Pooled :
      (c : C) (checked : Result C) (p : Result A × C)
      → call c ≡ p
      → let r = again call checked (settle call p) in Pooled (ok c) checked r.0 r.1
  unfolding again settle is_dropped is_retried
  again-Pooled c checked (ok a, after) h = once (made h (Fate.done a)) (IsFinal.done a)
  again-Pooled c checked (err (io_error kind), after) h =
      twice (made h (lost (io kind))) (io kind) (action-Attempt checked)
  again-Pooled c checked (err (parse_error e position), after) h =
      once (made h (Fate.answered (unreadable e position)))
        (IsFinal.answered (unreadable e position))
  again-Pooled c checked (err (protocol_error e), after) h =
      once (made h (Fate.answered (refused e))) (IsFinal.answered (refused e))
  again-Pooled c checked (err connection_pool_closed, after) h =
      once (made h Fate.closed) IsFinal.closed
  again-Pooled c checked (err empty_response, after) h =
      twice (made h (lost no_answer)) no_answer (action-Attempt checked)
  again-Pooled c checked (err request_timeout, after) h =
      twice (made h (lost no_time)) no_time (action-Attempt checked)
  again-Pooled c checked (Result.panic, after) h = once (made h Fate.panicked) IsFinal.panicked
  again-Pooled c checked (Result.diverged, after) h = once (made h Fate.diverged) IsFinal.diverged

  -- A call on the pool is made on the client that the pool gives, and again on the checked client
  -- that it then gives exactly if the first call ended with an error of input or output, an empty
  -- response or a timeout; its result is that of the last attempt, or the reason for which the
  -- pool gave no client for it. Of the clients that were called, those are put back whose call
  -- returned a value, an error of upsd or an error of parsing, and the others are dropped.
  pub pooled_call_lem :
      (first checked : Result C)
      → let r = pooled_call call first checked in Pooled first checked r.0 r.1
  unfolding pooled_call action
  pooled_call_lem (ok c) checked = again-Pooled c checked (call c) refl
  pooled_call_lem (err e) checked = Pooled.no_client (Attempt.no_client e)
  pooled_call_lem Result.panic checked = Pooled.no_client Attempt.panicked
  pooled_call_lem Result.diverged checked = Pooled.no_client Attempt.diverged
