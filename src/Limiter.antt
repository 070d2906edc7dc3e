-- ===== src/Limiter.antt =====
-- pkg/utils/backpressure/rate_limiter.go: the rate limiters.
--
-- Times are nanoseconds, rates are thousandths of a token per second, and a request asks for a
-- number of tokens that is not negative. Products and quotients of float64 are taken as exact. A
-- mutex makes each operation atomic; it takes the time that `time.Now` gives in it.
pub mod TokenBucket
pub mod SlidingWindow
pub mod Adaptive
pub mod Manager
pub mod Locks
mod Examples
