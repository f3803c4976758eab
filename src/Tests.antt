-- ===== src/Tests.antt =====
-- Concrete inputs: samples, runs of the definitions, and the theorems applied to them.
mod NetTests
mod CorrelationWitnesses
mod RdapWitnesses
mod AnalysisTests
mod AnalysisWitnesses
mod Samples
mod EngineTests
mod EngineWitnesses
mod CoreWitnesses
mod HttpWitnesses
