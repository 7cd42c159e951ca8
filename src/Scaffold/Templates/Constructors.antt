-- ===== src/Scaffold/Templates/Constructors.antt =====
-- The generated files declare the constructors that updateProviderSets names.
