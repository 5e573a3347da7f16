-- ===== src/UseCase.antt =====
-- usecases/usecase/: what every use case keeps of the remote entities that support it.
pub mod Remote
pub mod Base
pub mod Events
pub mod Limits
pub mod Features
