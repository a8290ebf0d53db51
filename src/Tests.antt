-- ===== src/Tests.antt =====
-- Each theorem that the header lists, applied at an input that meets its conditions, and a few runs
-- of the code's models.
mod CoreTests
mod PlanTests
mod ServerTests
mod StoreTests
mod ReprojectTests
mod TurnTests
mod TuiTests
mod ToolTests
mod ForkTests
mod ProviderTests
mod LiveTests
mod ApprovalTests
mod RequestTests
mod WildcardTests
